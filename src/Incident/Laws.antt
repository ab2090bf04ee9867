-- ===== src/Incident/Laws.antt =====
-- What the incidents come to, without their table and with it.
use go_lang_domain_based_ent.Admin.Paging.{length-page}
use go_lang_domain_based_ent.External.{Env}
use go_lang_domain_based_ent.Incident.{
  CreateIncidentRequest, count_incidents, create_incident, create_incident_row, find_all_incidents,
  insert_incident, insert_row, list_incidents, new_incident,
}
use go_lang_domain_based_ent.Prelude.{
  List, Option, String, [], ap, arith, length, length-append, none, some, ℕ, ℤ, ◌++◌, ◌+◌, ◌∙◌, ◌∷◌,
  ◌≡◌, ◌≤◌,
}
use go_lang_domain_based_ent.Schema.{Incident, Tables}
use go_lang_domain_based_ent.World.{World, err, ok, query_failed, ◌>>=◌}
use go_lang_domain_based_ent.World.Actions.{sql-eq_ok}

-- An incident with the fields of a request, a reporter, the status "open" and a time.
pub record Describes (i : Incident) (req : CreateIncidentRequest) (user_id : String) (t : ℕ)
    : Type 0 where
  pub title : i.title ≡ req.title
  pub description : i.description ≡ req.description
  pub severity : i.severity ≡ req.severity
  pub reporter : i.reported_by ≡ user_id
  pub status : i.status ≡ "open"
  pub created : i.created_at ≡ t

-- The row that is returned is the one that is inserted, but for the status.
insert_row-eq_some :
    (i : Incident) (status : Option String) (kept : Option (List Incident)) (db : Tables)
    (rows : List Incident) (made : Incident) (after : Tables)
    → kept ≡ some rows
    → insert_row i status kept db ≡ some (made, after)
    → (made ≡ i)
      × ((stored : String) × (after.incidents
            ≡ some (rows ++ record made { status = stored } ∷ [])))
insert_row-eq_some i status none db rows made after there h = cc
insert_row-eq_some i none (some own) db rows made after there h = cc
insert_row-eq_some i (some status) (some own) db rows made after there h = (cc, (status, cc))

module _ {E : Env} where
  -- Without the table, creating and listing return an error and change no table.
  incidents_missing :
      (req : CreateIncidentRequest) (user_id : String) (limit offset : ℤ) (w : World E)
      → w.db.incidents ≡ none
      → ((create_incident req user_id w).0 ≡ err query_failed)
        × ((create_incident req user_id w).1.db ≡ w.db)
        × ((list_incidents limit offset w).0 ≡ err query_failed)
        × ((list_incidents limit offset w).1.db ≡ w.db)
  unfolding create_incident create_incident_row insert_incident list_incidents find_all_incidents
      ◌>>=◌
  incidents_missing req user_id limit offset w missing = ground arith

  create_incident-rows :
      (req : CreateIncidentRequest) (user_id : String) (w : World E) (rows : List Incident)
      (i : Incident)
      → w.db.incidents ≡ some rows
      → (create_incident req user_id w).0 ≡ ok i
      → Describes i req user_id w.now
        × ((stored : String) × ((create_incident req user_id w).1.db.incidents
              ≡ some (rows ++ record i { status = stored } ∷ [])))
  unfolding create_incident create_incident_row insert_incident ◌>>=◌
  create_incident-rows req user_id w rows i there created =
      let made = record (new_incident req user_id) {
        id = E.uuid w.draws;
        created_at = w.now;
        updated_at = w.now;
      } in
      let stored = sql-eq_ok (insert_incident E made) (record w { draws = w.draws + 1 }) created in
      let (same, kept) =
        insert_row-eq_some made (E.incident_status made) w.db.incidents w.db rows i
          (create_incident req user_id w).1.db there stored in
      (
        record {
          title = ap (λ (x : Incident). x.title) same;
          description = ap (λ (x : Incident). x.description) same;
          severity = ap (λ (x : Incident). x.severity) same;
          reporter = ap (λ (x : Incident). x.reported_by) same;
          status = ap (λ (x : Incident). x.status) same;
          created = ap (λ (x : Incident). x.created_at) same;
        },
        kept,
      )

  list_incidents-rows :
      (limit offset : ℤ) (w : World E) (rows page_rows : List Incident) (total : ℕ)
      → w.db.incidents ≡ some rows
      → (list_incidents limit offset w).0 ≡ ok (page_rows, total)
      → (length page_rows ≤ 100) × (total ≡ length rows)
  unfolding list_incidents find_all_incidents count_incidents ◌>>=◌
  list_incidents-rows limit offset w rows page_rows total there shown =
      ground (arith, there, length-page limit offset (E.sorted_incidents rows))

  -- With the table, an incident that is created has the title, the description and the severity of
  -- the request, its reporter, the status "open" and the time in the answer; the row that is added
  -- differs from it in the status at most, which the table chooses; and the next page has at most 100
  -- incidents and counts the new one.
  pub create_incident-list_incidents :
      (req : CreateIncidentRequest) (user_id : String) (limit offset : ℤ) (w : World E)
      (rows : List Incident) (i : Incident) (page_rows : List Incident) (total : ℕ)
      → w.db.incidents ≡ some rows
      → (create_incident req user_id w).0 ≡ ok i
      → (list_incidents limit offset (create_incident req user_id w).1).0 ≡ ok (page_rows, total)
      → Describes i req user_id w.now
        × ((stored : String) × ((create_incident req user_id w).1.db.incidents
              ≡ some (rows ++ record i { status = stored } ∷ [])))
        × (length page_rows ≤ 100)
        × (total ≡ length rows + 1)
  create_incident-list_incidents req user_id limit offset w rows i page_rows total there created
        shown =
      let (described, (stored, kept)) = create_incident-rows req user_id w rows i there created in
      let (few, tallied) =
        list_incidents-rows limit offset (create_incident req user_id w).1 _ page_rows total kept
          shown in
      (described, (stored, kept), few, tallied ∙ length-append rows _)
