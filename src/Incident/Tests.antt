-- ===== src/Incident/Tests.antt =====
-- Incidents with their table and without it.
use go_lang_domain_based_ent.Admin.Paging.{page, page_limit, page_offset}
use go_lang_domain_based_ent.External.Example.{example_env, example_tables, example_world}
use go_lang_domain_based_ent.Incident.{
  CreateIncidentRequest, count_incidents, create_incident, create_incident_row, find_all_incidents,
  insert_incident, list_incidents, new_incident,
}
use go_lang_domain_based_ent.Incident.Laws.{Describes, create_incident-list_incidents}
use go_lang_domain_based_ent.Prelude.{String, [], length, pos, refl, some, ◌+◌, ◌∷◌, ◌≡◌, ◌≤◌}
use go_lang_domain_based_ent.Schema.{Incident}
use go_lang_domain_based_ent.World.{World, ◌>>=◌}

abbrev fire : CreateIncidentRequest
fire = record { title = "Fire"; description = "In the attic"; severity = "high" }

abbrev world_with_incidents : World example_env
world_with_incidents = record (example_world 100) {
  db = record example_tables { incidents = some [] };
}

abbrev fire_row : Incident
fire_row = record (new_incident fire "u1") { id = "id0"; created_at = 100; updated_at = 100 }

create_incident-list_incidents_example :
    Describes fire_row fire "u1" 100
    × ((stored : String) × ((create_incident fire "u1" world_with_incidents).1.db.incidents
          ≡ some (record fire_row { status = stored } ∷ [])))
    × (length (fire_row ∷ []) ≤ 100)
    × (1 ≡ length {A = Incident} [] + 1)
unfolding create_incident create_incident_row insert_incident list_incidents find_all_incidents
    count_incidents page page_limit page_offset ◌>>=◌
create_incident-list_incidents_example =
    create_incident-list_incidents fire "u1" (pos 20) (pos 0) world_with_incidents [] fire_row
      (fire_row ∷ []) 1 refl refl refl
