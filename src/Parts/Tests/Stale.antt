-- ===== src/Parts/Tests/Stale.antt =====
-- A stale push of a warranty under another id than that of its row.
use household_objects_srv.Prelude.{ℕ, ◌≡◌, refl, none, [], ◌∷◌, ok}
use household_objects_srv.Push.Rows.{PartRow, Warranty}
use household_objects_srv.Push.Types.{FieldVersionRow, Store, PushMutation}
use household_objects_srv.Push.Storage.{
  alloc_change_seq, record_field_versions, upsert_field_version, lookup_field_versions,
}
use household_objects_srv.Push.Merge.{
  require_known_fields, require_field, decode_string, merge_string, merge_policy, split_fields,
  tracked_version, snapshot_values,
}
use household_objects_srv.Push.Merge.Nullable.{decode_bool, merged}
use household_objects_srv.Push.Entity.{finish_updated, plan_fields}
use household_objects_srv.Parts.{get_part, reread_part, update_part, update_part_found, write_part}
use household_objects_srv.Parts.Push.{push_part, push_known_part, plan_part, merge_part}
use household_objects_srv.Parts.Warranty.{pushed_warranty, merged_warranty, diff_warranty_fields}
use household_objects_srv.Parts.Tests.{outside, acme_row, covered, lasts, lasted}

abbrev holder_version : ℕ → ℕ → FieldVersionRow
holder_version version now = record {
  group_id = "g";
  entity_type = "warranty_block";
  entity_id = "w";
  field_name = "holder";
  version = version;
  updated_at = now;
}

-- A second client, which knows version 1 of the warranty and names it by another id, overwrites the
-- holder that version 3 gave it, and no conflict is reported.
abbrev renamed_row : PartRow Warranty
renamed_row = record acme_row { values = record acme_row.values { holder = "Bea" }; version = 3 }

abbrev renamed : Store
renamed = record covered {
  warranties = renamed_row ∷ [];
  field_versions = holder_version 3 25 ∷ [];
}

abbrev stale : PushMutation
stale = record lasts { entity_id = "v"; fields = ("holder", "Cy") ∷ ("item_id", "i") ∷ [] }

abbrev overwritten : Store
overwritten = record renamed {
  groups = record { id = "g"; change_seq_counter = 3; deleted_at = none } ∷ [];
  warranties =
      record renamed_row {
        values = record acme_row.values { holder = "Cy" };
        updated_at = 30;
        version = 4;
        change_seq = 3;
      }
      ∷ [];
  field_versions = holder_version 4 30 ∷ [];
}

overwrites :
    push_part pushed_warranty outside renamed "g" stale
    ≡ ok (record lasted { version = 4 }, overwritten)
unfolding push_part push_known_part plan_part merge_part merged_warranty require_known_fields
    require_field decode_string merge_string decode_bool merged finish_updated get_part update_part
    update_part_found write_part reread_part alloc_change_seq record_field_versions
    upsert_field_version lookup_field_versions diff_warranty_fields merge_policy split_fields
    tracked_version snapshot_values plan_fields
overwrites = refl
