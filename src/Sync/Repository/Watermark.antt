-- ===== src/Sync/Repository/Watermark.antt =====
-- The tombstone low watermark of a household, as `SetLowWatermark` writes it and `LowWatermark`
-- reads it (server/internal/storage/sync.go).
use household_objects_srv.Prelude.{
  ℕ, String, eq_iff, ◌≡◌, ◌≢◌, refl, ap, ◌∙◌, pos, true, inl, inr, List, [], ◌∷◌, map, arith, ◌==◌,
  ==_iff, Bool-cases, ok, select, length, All, All-select,
}
use household_objects_srv.Sync.Repository.{
  Group, Database, live_group, low_watermark, get_low_watermark_of, write_low_watermark,
  set_low_watermark,
}

select-write :
    (group : String) (to : ℕ) (gs : List Group)
    → select (live_group group) (map (write_low_watermark group to) gs)
      ≡ map (write_low_watermark group to) (select (live_group group) gs)
unfolding write_low_watermark
select-write group to [] = refl
select-write group to (g ∷ gs) = ground (arith, select-write group to gs)

select-write_other :
    (group other : String) (to : ℕ) (gs : List Group)
    → other ≢ group
    → select (live_group other) (map (write_low_watermark group to) gs)
      ≡ select (live_group other) gs
unfolding write_low_watermark
select-write_other group other to [] h = refl
select-write_other group other to (g ∷ gs) h =
    ground (arith, select-write_other group other to gs h, eq_iff g.id group, eq_iff g.id other)

written :
    (group : String) (to : ℕ) (gs : List Group)
    → length gs ≡ 1
    → All (λ g. live_group group g ≡ true) gs
    → get_low_watermark_of (map (write_low_watermark group to) gs) ≡ ok to
unfolding write_low_watermark get_low_watermark_of
written group to [] e a = absurd (omega arith)
written group to (g ∷ gs) e a = ground (arith, a.0)

-- A write that succeeds is what the household reads next; it needs exactly one live row of the
-- household, and leaves the other households' watermarks and every synchronised row as they were.
pub set_low_watermark-reads :
    {D : Type 0} (db db' : Database D) (group : String) (to : ℕ)
    → set_low_watermark db group (pos to) ≡ ok db'
    → (length (select (live_group group) db.groups) ≡ 1)
      × (low_watermark db' group ≡ ok to)
      × ((other : String) → other ≢ group → low_watermark db' other ≡ low_watermark db other)
      × (db'.rows ≡ db.rows)
unfolding set_low_watermark low_watermark
set_low_watermark-reads db db' group to h =
    elim (Bool-cases (length (select (live_group group) db.groups) == 1)) [
      | inl one ↦
          let single : length (select (live_group group) db.groups) ≡ 1 = (==_iff _ 1).0 one in
          let same : record db { groups = map (write_low_watermark group to) db.groups } ≡ db' =
            cc (rw one at h) in
          rw (← same) (
            single,
            ap get_low_watermark_of (select-write group to db.groups)
                ∙ (written group to (select (live_group group) db.groups) single
                    (All-select (live_group group) db.groups)),
            λ other ne. ap get_low_watermark_of (select-write_other group other to db.groups ne),
            refl,
          )
      | inr more ↦ cc (rw more at h)
    ]
