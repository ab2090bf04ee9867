-- ===== src/Incident.antt =====
-- internal/modules/incident: the repository, and the service above it. No migration creates the
-- table of incidents, so the model says what each statement does with it and without it.
use go_lang_domain_based_ent.Admin.Paging.{page}
use go_lang_domain_based_ent.External.{Env}
use go_lang_domain_based_ent.Prelude.{List, Option, String, [], length, none, some, ℕ, ℤ, ◌++◌, ◌∷◌}
use go_lang_domain_based_ent.Schema.{Incident, Tables}
use go_lang_domain_based_ent.World.{Action, draw, now, pure, sql, ◌>>=◌, ◌>>◌}
pub mod Laws
pub mod Tests

pub record CreateIncidentRequest : Type 0 where
  pub title : String
  pub description : String
  pub severity : String

-- INSERT INTO incidents (title, description, severity, reported_by)
abbrev pub insert_row :
    Incident → Option String → Option (List Incident) → Tables → Option (Incident × Tables)
insert_row i status none db = none
insert_row i none (some rows) db = none
insert_row i (some status) (some rows) db =
    some (i, record db { incidents = some (rows ++ record i { status = status } ∷ []) })

unfoldable pub insert_incident : Env → Incident → Tables → Option (Incident × Tables)
insert_incident E i db = insert_row i (E.incident_status i) db.incidents db

unfoldable pub create_incident_row : {E : Env} → Incident → Action E Incident
create_incident_row {E} i = do
  n ← draw
  t ← now
  sql (insert_incident E (record i { id = E.uuid n; created_at = t; updated_at = t }))

-- SELECT ... FROM incidents
abbrev pub select_incidents :
    {A : Type 0} → (List Incident → A) → Option (List Incident) → Tables → Option (A × Tables)
select_incidents read none db = none
select_incidents read (some rows) db = some (read rows, db)

unfoldable pub find_all_incidents : {E : Env} → ℤ → ℤ → Action E (List Incident)
find_all_incidents {E} limit offset =
    sql
      (λ db. select_incidents (λ rows. page limit offset (E.sorted_incidents rows)) db.incidents db)

unfoldable pub count_incidents : {E : Env} → Action E ℕ
count_incidents = sql (λ db. select_incidents length db.incidents db)

-- The service. An `IncidentResponse` has the fields of an incident, and is one here.

abbrev pub new_incident : CreateIncidentRequest → String → Incident
new_incident req user_id = record {
  id = "";
  title = req.title;
  description = req.description;
  status = "open";
  severity = req.severity;
  reported_by = user_id;
  created_at = 0;
  updated_at = 0;
}

unfoldable pub create_incident : {E : Env} → CreateIncidentRequest → String → Action E Incident
create_incident req user_id = create_incident_row (new_incident req user_id)

unfoldable pub list_incidents : {E : Env} → ℤ → ℤ → Action E (List Incident × ℕ)
list_incidents limit offset = do
  incidents ← find_all_incidents limit offset
  total ← count_incidents
  pure (incidents, total)
