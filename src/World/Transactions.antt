-- ===== src/World/Transactions.antt =====
-- A database transaction: `Begin`, the statements, and `Commit`, with the deferred `Rollback` after
-- an error. Whether a `Commit` that returns an error has changed the tables is not known.
use go_lang_domain_based_ent.External.{Env}
use go_lang_domain_based_ent.Prelude.{List, [], if◌then◌else◌, ◌+◌, ◌∷◌}
use go_lang_domain_based_ent.Schema.{Tables}
use go_lang_domain_based_ent.World.{Action, Result, World, err, ok, pure, query_failed, ◌>>◌}

module _ {E : Env} where
  -- The end of a transaction that began on these tables.
  abbrev pub close_transaction : {A : Type 0} → Tables → Result A × World E → Result A × World E
  close_transaction db (ok a, w) =
      let w' = record w { calls = w.calls + 1 } in
      if E.fails w.calls
      then (err query_failed, record w' { db = if E.commits w.calls then w.db else db })
      else (ok a, w')
  close_transaction db (err e, w) = (err e, record w { db = db; calls = w.calls + 1 })

  unfoldable pub transaction : {A : Type 0} → Action E A → Action E A
  transaction m w =
      let w' = record w { calls = w.calls + 1 } in
      if E.fails w.calls then (err query_failed, w') else close_transaction w.db (m w')

  -- The statements of a loop, up to the first that fails.
  unfoldable pub for_each : {A : Type 0} → (A → Action E (Unit {0})) → List A → Action E (Unit {0})
  for_each f [] = pure tt
  for_each f (x ∷ xs) = f x >> for_each f xs
