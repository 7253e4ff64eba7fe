-- ===== src/Sync/Reader/Window.antt =====
-- What a page has to hold, said of the tables alone: the rows of a household after one watermark,
-- and those of them up to another.
use mathlib.Core.List.{filter_map}
use household_objects_srv.Prelude.{
  ℕ, ◌-◌, ◌≤◌, ◌<◌, ◌≡◌, sym, ap, ◌∙◌, false, ◌&&◌, ◌||◌, Option, none, some, List, [], ◌∷◌, ◌++◌,
  Perm, arith, ltb, leb, ◌==◌, select, gather, length, All, select-select, select_comm,
  select-select_beyond, select-ext, Perm-select_split, All-select_none,
}
use household_objects_srv.Sync.Types.{EntityType, Row, Candidate, Change, Tombstone, Page}
use household_objects_srv.Sync.Reader.{entity_types, candidates}

module _ {D : Type 0} where
  -- The entry of the page for a row that lives, and for a deleted one.
  abbrev pub change_of : Candidate D → Option (Change D)
  change_of c = elim c.deleted_at [
    | none ↦ some (record {
      entity_type = c.entity_type;
      id = c.id;
      group_change_seq = c.change_seq;
      content = c.content;
    })
    | some at ↦ none
  ]

  abbrev pub tombstone_of : Candidate D → Option Tombstone
  tombstone_of c = elim c.deleted_at [
    | none ↦ none
    | some at ↦ some (record { entity_type = c.entity_type; id = c.id; deleted_at = at })
  ]

module _ {D : Type 0} (rows : EntityType → List (Row D)) where
  abbrev pub all_rows : List (Candidate D)
  all_rows = gather (λ t. candidates t (rows t)) entity_types

  abbrev pub rows_after : ℕ → List (Candidate D)
  rows_after since = select (λ c. ltb since c.change_seq) all_rows

  abbrev pub rows_between : ℕ → ℕ → List (Candidate D)
  rows_between since next = select (λ c. ltb since c.change_seq && leb c.change_seq next) all_rows

  -- The page holds each row after `since` up to its own watermark once, tells whether there are
  -- more, and moves on if there is anything to move to.
  pub record Covers (since : ℕ) (page : Page D) : Type 0 where
    pub changes : Perm page.changes (filter_map change_of (rows_between since page.next_watermark))
    pub tombstones :
        Perm page.tombstones (filter_map tombstone_of (rows_between since page.next_watermark))
    pub has_more : page.has_more ≡ ltb 0 (length (rows_after page.next_watermark))
    pub forward : since ≤ page.next_watermark
    pub progress : 0 < length (rows_after since) → since < page.next_watermark

module _ {D : Type 0} (rows : EntityType → List (Row D)) where
  pub select-rows_after :
      (since m : ℕ)
      → select (λ c. leb c.change_seq m) (rows_after rows since) ≡ rows_between rows since m
  select-rows_after since m = select-select _ _ (all_rows rows)

  pub rows_after-rows_after :
      (since last : ℕ)
      → since ≤ last
      → select (λ c. ltb last c.change_seq) (rows_after rows since) ≡ rows_after rows last
  rows_after-rows_after since last h = select-select_beyond _ since last (all_rows rows) h

  pub rows_between-after :
      (since last next : ℕ)
      → since ≤ last
      → select (λ c. ltb last c.change_seq) (rows_between rows since next)
        ≡ rows_between rows last next
  rows_between-after since last next h =
      ap (select (λ c. ltb last c.change_seq)) (sym (select-rows_after since next))
      ∙ select_comm _ _ (rows_after rows since)
      ∙ ap (select (λ c. leb c.change_seq next)) (rows_after-rows_after since last h)
      ∙ select-rows_after last next

  -- A window is the disjoint union of the windows on the two sides of a watermark inside.
  pub rows_between-split :
      (since last next : ℕ)
      → since ≤ last
      → last ≤ next
      → Perm
          (rows_between rows since next)
          (rows_between rows since last ++ rows_between rows last next)
  rows_between-split since last next h k =
      Perm-select_split _ _ _ (all_rows rows) (parts (all_rows rows))
    where
      parts :
          (cs : List (Candidate D))
          → All
              (λ c.
                ((ltb since c.change_seq && leb c.change_seq next) ≡ (
                  (ltb since c.change_seq && leb c.change_seq last)
                  || (ltb last c.change_seq && leb c.change_seq next)))
                × (((ltb since c.change_seq && leb c.change_seq last)
                      && (ltb last c.change_seq && leb c.change_seq next))
                    ≡ false))
              cs
      parts [] = tt
      parts (c ∷ cs) = ((ground arith, ground arith), parts cs)

  -- With nothing between `since` and `q`, the rows at `q` are the window up to `q`.
  pub rows_at-eq :
      (since q : ℕ)
      → since < q
      → rows_between rows since (q - 1) ≡ []
      → select (λ c. c.change_seq == q) (all_rows rows) ≡ rows_between rows since q
  rows_at-eq since q h e =
      select-ext _ _ (all_rows rows) (same (all_rows rows) (All-select_none _ (all_rows rows) e))
    where
      same :
          (cs : List (Candidate D))
          → All (λ c. (ltb since c.change_seq && leb c.change_seq (q - 1)) ≡ false) cs
          → All (λ c. (c.change_seq == q) ≡ (ltb since c.change_seq && leb c.change_seq q)) cs
      same [] a = tt
      same (c ∷ cs) a = (ground (arith, a.0), same cs a.1)
