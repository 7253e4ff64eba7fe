-- ===== src/Sync/Reader/Groups.antt =====
-- `groupByChangeSeq` of server/internal/sync/reader.go on candidates in order of sequence number.
use mathlib.Core.List.{foldl, append-nil, append_assoc}
use household_objects_srv.Prelude.{
  ℕ, ◌≤◌, ◌<◌, ◌≡◌, refl, sym, List, [], ◌∷◌, ◌++◌, inl, inr, arith, ◌==◌, Bool-cases, All,
  All-append, gather, SortedFrom,
}
use household_objects_srv.Sync.Types.{Candidate}
use household_objects_srv.Sync.Reader.{SeqGroup, extend, group_by_change_seq}

module _ {D : Type 0} where
  abbrev pub members_of : List (SeqGroup D) → List (Candidate D)
  members_of = gather (λ g. g.members)

  -- Strictly ascending sequence numbers above `b`, and in each group that number alone.
  abbrev pub Ascending : ℕ → List (SeqGroup D) → Type 0
  Ascending b [] = Unit
  Ascending b (g ∷ gs) =
      (b < g.seq) × All (λ c. c.change_seq ≡ g.seq) g.members × Ascending g.seq gs

  -- The sequence number of the last group.
  abbrev last_seq_of : ℕ → List (SeqGroup D) → ℕ
  last_seq_of b [] = b
  last_seq_of b (g ∷ gs) = last_seq_of g.seq gs

  members_of-extend :
      (gs : List (SeqGroup D)) (c : Candidate D)
      → members_of (extend gs c) ≡ members_of gs ++ c ∷ []
  unfolding extend
  members_of-extend [] c = refl
  members_of-extend (g ∷ []) c = elim (Bool-cases (g.seq == c.change_seq)) [
    | inl e ↦ rw e (simp (append-nil))
    | inr e ↦ rw e (simp (append-nil))
  ]
  members_of-extend (g ∷ h ∷ gs) c =
      rw (members_of-extend (h ∷ gs) c) (sym (append_assoc g.members _ _))

  last_seq_of-extend :
      (b : ℕ) (gs : List (SeqGroup D)) (c : Candidate D)
      → last_seq_of b (extend gs c) ≡ c.change_seq
  unfolding extend
  last_seq_of-extend b [] c = refl
  last_seq_of-extend b (g ∷ []) c = ground arith
  last_seq_of-extend b (g ∷ h ∷ gs) c = last_seq_of-extend g.seq (h ∷ gs) c

  extend-Ascending :
      (b : ℕ) (g : SeqGroup D) (gs : List (SeqGroup D)) (c : Candidate D)
      → Ascending b (g ∷ gs)
      → last_seq_of g.seq gs ≤ c.change_seq
      → Ascending b (extend (g ∷ gs) c)
  unfolding extend
  extend-Ascending b g [] c a h = elim (Bool-cases (g.seq == c.change_seq)) [
    | inl e ↦ rw e (a.0, All-append _ g.members (c ∷ []) a.1 (ground arith), tt)
    | inr e ↦ rw e (a.0, a.1, (ground arith, (refl, tt), tt))
  ]
  extend-Ascending b g (h ∷ gs) c a p = (a.0, a.1, extend-Ascending g.seq h gs c a.2 p)

  extend_from-Ascending :
      (b : ℕ) (gs : List (SeqGroup D)) (c : Candidate D)
      → Ascending b gs
      → b < c.change_seq
      → last_seq_of b gs ≤ c.change_seq
      → Ascending b (extend gs c)
  unfolding extend
  extend_from-Ascending b [] c a h k = (h, (refl, tt), tt)
  extend_from-Ascending b (g ∷ gs) c a h k = extend-Ascending b g gs c a k

  members_of-foldl :
      (gs : List (SeqGroup D)) (cs : List (Candidate D))
      → members_of (foldl extend gs cs) ≡ members_of gs ++ cs
  members_of-foldl gs [] = sym (append-nil _)
  members_of-foldl gs (c ∷ cs) =
      rw (members_of-foldl (extend gs c) cs, members_of-extend gs c)
        (append_assoc (members_of gs) _ _)

  foldl-Ascending :
      (b : ℕ) (gs : List (SeqGroup D)) (cs : List (Candidate D))
      → Ascending b gs
      → All (λ c. b < c.change_seq) cs
      → SortedFrom (λ c. c.change_seq) (last_seq_of b gs) cs
      → Ascending b (foldl extend gs cs)
  foldl-Ascending b gs [] a h s = a
  foldl-Ascending b gs (c ∷ cs) a h s =
      foldl-Ascending b (extend gs c) cs (extend_from-Ascending b gs c a h.0 s.0) h.1
        (rw (last_seq_of-extend b gs c) s.1)

  -- Nothing is lost, doubled or moved.
  pub members_of-group_by_change_seq :
      (cs : List (Candidate D)) → members_of (group_by_change_seq cs) ≡ cs
  unfolding group_by_change_seq
  members_of-group_by_change_seq cs = members_of-foldl [] cs

  pub group_by_change_seq-Ascending :
      (b : ℕ) (cs : List (Candidate D))
      → All (λ c. b < c.change_seq) cs
      → SortedFrom (λ c. c.change_seq) b cs
      → Ascending b (group_by_change_seq cs)
  unfolding group_by_change_seq
  group_by_change_seq-Ascending b cs h s = foldl-Ascending b [] cs tt h s
