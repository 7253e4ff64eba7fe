-- ===== src/Labels/Clash.antt =====
-- Names of live labels that clash, and the rows that the statements of server/internal/storage/labels.go
-- write.
use household_objects_srv.Prelude.{
  ℕ, String, str_eq, eq_iff, ◌≡◌, Bool, true, false, ◌&&◌, ◌||◌, not, some, List, [], ◌∷◌, ◌++◌,
  inl, inr, arith, if◌then◌else◌, Bool-cases, ok, find?, update_where, All, All-append, All-imp,
}
use household_objects_srv.Push.Types.{LabelRow}
use household_objects_srv.Push.Storage.{is_some}
use household_objects_srv.Labels.{
  UpdateLabelParams, label_is, label_named, check_name, updated_label, label_version_is,
  buried_label,
}

-- Two live labels of the household with one name, or two rows with one id.
abbrev pub clash : String → LabelRow → LabelRow → Bool
clash group r x =
    str_eq r.id x.id
    || (str_eq r.group_id group && (not (is_some r.deleted_at) && label_named group r.name x))

-- Ids are unique, and so are the names of the household's live labels.
abbrev pub Distinct : String → List LabelRow → Type 0
Distinct group [] = Unit
Distinct group (r ∷ rows) =
    All (λ (x : LabelRow). clash group r x ≡ false) rows × Distinct group rows

pub find?-none-All :
    (p : LabelRow → Bool) (rows : List LabelRow)
    → is_some (find? p rows) ≡ false
    → All (λ (x : LabelRow). p x ≡ false) rows
find?-none-All p [] h = tt
find?-none-All p (r ∷ rows) h = elim (Bool-cases (p r)) [
  | inl e ↦ absurd (ground (arith, rw e at h))
  | inr e ↦ (e, find?-none-All p rows (rw e at h))
]

no_clash :
    (group : String) (r new : LabelRow)
    → str_eq r.id new.id ≡ false
    → label_named group new.name r ≡ false
    → clash group r new ≡ false
no_clash group r new h k = ground (arith, eq_iff r.name new.name, eq_iff new.name r.name)

pub Distinct-append :
    (group : String) (new : LabelRow) (rows : List LabelRow)
    → All (λ (x : LabelRow). str_eq x.id new.id ≡ false) rows
    → All (λ (x : LabelRow). label_named group new.name x ≡ false) rows
    → Distinct group rows
    → Distinct group (rows ++ new ∷ [])
Distinct-append group new [] ids names h = (tt, tt)
Distinct-append group new (r ∷ rows) (i, ids) (n, names) (h, hs) = (
  All-append _ rows (new ∷ []) h (no_clash group r new i n, tt),
  Distinct-append group new rows ids names hs,
)

-- Every live label with the name has the id.
abbrev NameOf : String → String → String → LabelRow → Type 0
NameOf group name id x = label_named group name x ≡ true → str_eq x.id id ≡ true

clash-NameOf :
    (group name id : String) (r x : LabelRow)
    → label_named group name r ≡ true
    → clash group r x ≡ false
    → NameOf group name id x
clash-NameOf group name id r x h k l = absurd (ground (arith, eq_iff r.name name))

pub check_name-NameOf :
    (group name id : String) (rows : List LabelRow)
    → check_name (find? (label_named group name) rows) (some id) ≡ ok tt
    → Distinct group rows
    → All (NameOf group name id) rows
unfolding check_name
check_name-NameOf group name id [] h distinct = tt
check_name-NameOf group name id (r ∷ rows) h (apart, distinct) =
    elim (Bool-cases (label_named group name r)) [
      | inl e ↦
          let mine : str_eq r.id id ≡ true = ground (arith, rw (e, check_name) at h) in
          (
            λ k. mine,
            All-imp _ (NameOf group name id) rows (λ x k. clash-NameOf group name id r x e k) apart,
          )
      | inr e ↦ (λ k. cc (e, k), check_name-NameOf group name id rows (rw e at h) distinct)
    ]

same_rows : (id a b : String) → str_eq a id ≡ true → str_eq b id ≡ true → str_eq a b ≡ true
same_rows id a b h k = ground (arith, eq_iff a id, eq_iff b id, eq_iff a b)

-- The UPDATE of labels gives the rows with an id a name that only they may have.
module _ (group : String) (p : UpdateLabelParams) (seq : ℕ) where
  clash-write :
      (r x : LabelRow)
      → NameOf group p.name p.id r
      → NameOf group p.name p.id x
      → clash group r x ≡ false
      → clash group
          (if label_version_is group p.id p.expected_version r then updated_label p seq r else r)
          (if label_version_is group p.id p.expected_version x then updated_label p seq x else x)
        ≡ false
  clash-write r x mine other apart =
      elim (Bool-cases (label_version_is group p.id p.expected_version r)) [
        | inl e ↦ elim (Bool-cases (label_version_is group p.id p.expected_version x)) [
          | inl e' ↦ absurd (ground (arith, same_rows p.id r.id x.id))
          | inr e' ↦ rw (e, e') (ground (arith, same_rows p.id r.id x.id))
        ]
        | inr e ↦ elim (Bool-cases (label_version_is group p.id p.expected_version x)) [
          | inl e' ↦
              rw (e, e')
                (ground
                  (arith, same_rows p.id r.id x.id, eq_iff r.name p.name, eq_iff p.name r.name))
          | inr e' ↦ rw (e, e') apart
        ]
      ]

  clash-write_rows :
      (r : LabelRow) (rows : List LabelRow)
      → NameOf group p.name p.id r
      → All (NameOf group p.name p.id) rows
      → All (λ (x : LabelRow). clash group r x ≡ false) rows
      → All
          (λ (x : LabelRow).
            clash group
              (if label_version_is group p.id p.expected_version r
                then updated_label p seq r
                else r)
              x
            ≡ false)
          (update_where (label_version_is group p.id p.expected_version) (updated_label p seq) rows)
  clash-write_rows r [] mine others apart = tt
  clash-write_rows r (x ∷ rows) mine (other, others) (h, hs) =
      (clash-write r x mine other h, clash-write_rows r rows mine others hs)

  pub Distinct-write :
      (rows : List LabelRow)
      → All (NameOf group p.name p.id) rows
      → Distinct group rows
      → Distinct group
          (update_where (label_version_is group p.id p.expected_version) (updated_label p seq) rows)
  Distinct-write [] names h = tt
  Distinct-write (r ∷ rows) (mine, others) (h, hs) =
      (clash-write_rows r rows mine others h, Distinct-write rows others hs)

-- The UPDATE that deletes a label.
module _ (group id : String) (now seq : ℕ) where
  clash-bury :
      (r x : LabelRow)
      → clash group r x ≡ false
      → clash group
          (if label_is group id r then buried_label now seq r else r)
          (if label_is group id x then buried_label now seq x else x)
        ≡ false
  clash-bury r x apart = elim (Bool-cases (label_is group id r)) [
    | inl e ↦ elim (Bool-cases (label_is group id x)) [
      | inl e' ↦ rw (e, e') (ground arith)
      | inr e' ↦ rw (e, e') (ground arith)
    ]
    | inr e ↦ elim (Bool-cases (label_is group id x)) [
      | inl e' ↦ rw (e, e') (ground arith)
      | inr e' ↦ rw (e, e') apart
    ]
  ]

  clash-bury_rows :
      (r : LabelRow) (rows : List LabelRow)
      → All (λ (x : LabelRow). clash group r x ≡ false) rows
      → All
          (λ (x : LabelRow).
            clash group (if label_is group id r then buried_label now seq r else r) x ≡ false)
          (update_where (label_is group id) (buried_label now seq) rows)
  clash-bury_rows r [] apart = tt
  clash-bury_rows r (x ∷ rows) (h, hs) = (clash-bury r x h, clash-bury_rows r rows hs)

  pub Distinct-bury :
      (rows : List LabelRow)
      → Distinct group rows
      → Distinct group (update_where (label_is group id) (buried_label now seq) rows)
  Distinct-bury [] h = tt
  Distinct-bury (r ∷ rows) (h, hs) = (clash-bury_rows r rows h, Distinct-bury rows hs)
