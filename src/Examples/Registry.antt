-- ===== src/Examples/Registry.antt =====
-- The registry and the links on concrete modules.
use glu_core.Prelude.{◌≡◌, ◌↔◌, true, some, [], ◌∷◌, if◌then◌else◌, ◌==◌, bytes_eq, ◌/◌, ◌%◌, ◌^◌}
use glu_core.Handles.{
  empty_registry, find_export, glucore_register_module, glucore_get_signature,
  glucore_get_module_export_count, signature_or_empty, count_of,
}
use glu_core.Handles.Scan.{last_named}
use glu_core.Handles.Index.{register_all, scan_entry, scan_module, entry_name}
use glu_core.Handles.Lookup.{wrapper_of, registry_lookups, find_export-glucore_register_module}
use glu_core.Router.{
  is_link_allowed_bytes, glucore_link_table_size, caller_len, current_caller_bytes,
  glucore_shared_state_checksum,
}
use glu_core.Router.Checksum.{glucore_shared_state_checksum_lem}
use glu_core.Router.Links.{add_links, Listed, link_allowed_iff}
use glu_core.Examples.Data.{
  modules, registry, registry-IsIndexed, render_module, renderer, physics, script, step, draw,
  links,
}

registry_lookups_example :
    (find_export (register_all modules empty_registry) physics step
      ≡ wrapper_of (scan_entry modules physics step))
    × (glucore_get_signature (register_all modules empty_registry) (some physics) (some step)
        ≡ signature_or_empty (scan_entry modules physics step))
    × (glucore_get_module_export_count (register_all modules empty_registry) (some physics)
        ≡ count_of (scan_module modules physics))
registry_lookups_example = registry_lookups modules physics step

find_export-glucore_register_module_example :
    find_export (glucore_register_module render_module registry) renderer draw ≡ (
      if renderer == renderer
      then wrapper_of (last_named entry_name draw 0 render_module.entries)
      else find_export registry renderer draw)
find_export-glucore_register_module_example =
    find_export-glucore_register_module render_module registry renderer draw registry-IsIndexed

link_allowed_iff_example :
    (is_link_allowed_bytes
        (add_links ((script, physics) ∷ (physics, renderer) ∷ []) [])
        script
        renderer
      ≡ true)
    ↔ Listed script renderer ((script, physics) ∷ (physics, renderer) ∷ [])
link_allowed_iff_example =
    link_allowed_iff ((script, physics) ∷ (physics, renderer) ∷ []) script renderer

glucore_shared_state_checksum_lem_example :
    (glucore_shared_state_checksum links (script ∷ []) / 2 ^ 32
      ≡ caller_len (current_caller_bytes (script ∷ [])) % 2 ^ 32)
    × (glucore_shared_state_checksum links (script ∷ []) % 2 ^ 32
        ≡ glucore_link_table_size links % 2 ^ 32)
glucore_shared_state_checksum_lem_example = glucore_shared_state_checksum_lem links (script ∷ [])
