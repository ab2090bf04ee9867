-- ===== src/Cache/Tests.antt =====
-- The cache on concrete entries.
use go_lang_domain_based_ent.Cache.{TokenCache, cleanup, get, new_token_cache, oldest, set}
use go_lang_domain_based_ent.Cache.Bounds.{Call, IsBounded, clean, read, run, run-IsBounded, write}
use go_lang_domain_based_ent.Cache.Eviction.{set_full, time_at}
use go_lang_domain_based_ent.Cache.Reads.{get-set, view, view-cleanup}
use go_lang_domain_based_ent.Prelude.{
  List, [], arith, erase, if◌then◌else◌, insert, lookup, ltb, none, refl, some, string_dec, ℕ, ◌+◌,
  ◌==◌, ◌∷◌, ◌≡◌, ◌≤◌,
}

abbrev one_of_two : TokenCache ℕ
one_of_two = record {
  entries =
      ("a", record { payload = 1; expires_at = 20 })
      ∷ ("b", record { payload = 2; expires_at = 10 })
      ∷ [];
  ttl = 5;
  max_size = 2;
}

evicts_first : get "b" 8 (set "c" 3 7 one_of_two) ≡ (none, set "c" 3 7 one_of_two)
unfolding get set lookup insert erase string_dec
evicts_first = refl

abbrev four_calls : List (ℕ × Call ℕ)
four_calls = (1, write "a" 1) ∷ (2, write "b" 2) ∷ (3, read "a") ∷ (9, clean) ∷ []

run-IsBounded_example : IsBounded (run four_calls (new_token_cache 5 1))
run-IsBounded_example = run-IsBounded four_calls 5 1 (omega arith)

set_full_example :
    (time_at (oldest one_of_two.entries "" 0).0 one_of_two.entries
      ≡ some (oldest one_of_two.entries "" 0).1)
    × ((oldest one_of_two.entries "" 0).1 ≤ 20)
    × (lookup "a" (set "c" 3 7 one_of_two).entries ≡ (
        if "c" == "a"
        then some (record { payload = 3; expires_at = 7 + 5 })
        else if (oldest one_of_two.entries "" 0).0 == "a"
        then none
        else some (record { payload = 1; expires_at = 20 })))
unfolding lookup string_dec
set_full_example =
    set_full "c" 3 7 one_of_two "a" (record { payload = 1; expires_at = 20 }) (refl, (refl, tt))
      refl (omega arith) refl

get-set_example :
    (get "c" 13 (set "c" 3 7 one_of_two)).0 ≡ (if ltb (7 + 5) 13 then none else some 3)
get-set_example = get-set "c" 3 7 13 one_of_two

view-cleanup_example : view 16 (cleanup 15 one_of_two) "a" ≡ view 16 one_of_two "a"
unfolding lookup string_dec
view-cleanup_example = view-cleanup 15 16 one_of_two "a" (refl, (refl, tt)) (omega arith)
