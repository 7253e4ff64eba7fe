-- ===== src/Sync/Reader/Fill.antt =====
-- The loop of `Pull` in server/internal/sync/reader.go over the groups.
use mathlib.Core.List.{append-nil}
use mathlib.Core.List.Perm
use household_objects_srv.Prelude.{
  ℕ, ◌+◌, ◌-◌, ◌≤◌, ◌<◌, ◌≡◌, refl, sym, ap, ◌∙◌, ◌⊎◌, inl, inr, Bool, true, List, [], ◌∷◌, ◌++◌,
  Perm, arith, ltb, leb, Bool-cases, Result, ok, select, length, length-append, select-append,
  select_comm, All-imp, All-append, eq-nil_of_length, length-select_split, select-select_beyond,
  select-All, select_none, Perm-length, Perm-select, All,
}
use household_objects_srv.Sync.Types.{EntityType, Row, Candidate, Page, SyncError, SyncRepository}
use household_objects_srv.Sync.Repository.{Serves}
use household_objects_srv.Sync.Reader.{SeqGroup, build_page, fill_page, pull_groups}
use household_objects_srv.Sync.Reader.Groups.{members_of, Ascending}
use household_objects_srv.Sync.Reader.Window.{
  rows_after, rows_between, rows_after-rows_after, rows_between-after, rows_between-split,
  rows_at-eq, select-rows_after,
}
use household_objects_srv.Sync.Reader.Fetch.{
  fetched, fetch_at_seq-eq, probe_has_more-eq, fetched_full, fetched_shorter,
}

module _ {D : Type 0} where
  -- The groups beyond `b` have no member up to it.
  members_beyond :
      (b m : ℕ) (gs : List (SeqGroup D))
      → m ≤ b
      → Ascending b gs
      → All (λ c. m < c.change_seq) (members_of gs)
  members_beyond b m [] h a = tt
  members_beyond b m (g ∷ gs) h a =
      All-append _ g.members (members_of gs) (All-imp _ _ g.members (λ c e. omega arith) a.1)
        (members_beyond g.seq m gs (omega arith) a.2)

  -- Up to the number of the first group the members are its own.
  select_first :
      (b : ℕ) (g : SeqGroup D) (gs : List (SeqGroup D))
      → Ascending b (g ∷ gs)
      → select (λ c. leb c.change_seq g.seq) (members_of (g ∷ gs)) ≡ g.members
  select_first b g gs a =
      rw
        (
          select-append,
          select-All (λ c. leb c.change_seq g.seq) g.members
              (All-imp _ _ g.members (λ c e. ground arith) a.1),
          select_none (λ c. leb c.change_seq g.seq) (members_of gs)
              (All-imp _ _ (members_of gs) (λ c e. ground arith)
                (members_beyond g.seq g.seq gs (omega arith) a.2)),
        )
        (append-nil g.members)

  -- Beyond it they are those of the other groups.
  select_others :
      (b : ℕ) (g : SeqGroup D) (gs : List (SeqGroup D))
      → Ascending b (g ∷ gs)
      → select (λ c. ltb g.seq c.change_seq) (members_of (g ∷ gs)) ≡ members_of gs
  select_others b g gs a =
      rw
        (
          select-append,
          select_none (λ c. ltb g.seq c.change_seq) g.members
              (All-imp _ _ g.members (λ c e. ground arith) a.1),
        )
        (select-All (λ c. ltb g.seq c.change_seq) (members_of gs)
          (All-imp _ _ (members_of gs) (λ c e. ground arith)
            (members_beyond g.seq g.seq gs (omega arith) a.2)))

-- A page as the code builds it, and what is shown of the candidates that it is built from.
module _ {D : Type 0} (rows : EntityType → List (Row D)) where
  pub record Filled (limit since last : ℕ) (r : Result SyncError (Page D)) : Type 0 where
    pub ordered : List (Candidate D)
    pub next : ℕ
    pub more : Bool
    pub result : r ≡ ok (build_page ordered next more)
    pub window : Perm ordered (rows_between rows since next)
    pub rest : more ≡ ltb 0 (length (rows_after rows next))
    pub forward : last ≤ next
    pub size : (length ordered ≤ limit) ⊎ (rows_between rows since (next - 1) ≡ [])

  unfoldable pub Filled-forward :
      {limit since last last' : ℕ} {r : Result SyncError (Page D)}
      → last ≤ last'
      → Filled limit since last' r
      → Filled limit since last r
  Filled-forward h f = record {
    ordered = f.ordered;
    next = f.next;
    more = f.more;
    result = f.result;
    window = f.window;
    rest = f.rest;
    forward = omega (arith, f.forward);
    size = f.size;
  }

module _ {D : Type 0} (rows : EntityType → List (Row D)) (repo : SyncRepository D)
    (serves : Serves rows repo) (since limit : ℕ) (sorted : List (Candidate D))
    (perm : Perm sorted (fetched rows repo serves since limit)) where
  sorted_shorter :
      (p : Candidate D → Bool)
      → length (select p sorted) ≤ length (select p (rows_after rows since))
  sorted_shorter p =
      omega
        (arith, Perm-length (Perm-select p perm), fetched_shorter rows repo serves p since limit)

  sorted_full :
      (m : ℕ)
      → length (select (λ c. leb c.change_seq m) sorted) ≤ limit
      → Perm (select (λ c. leb c.change_seq m) sorted) (rows_between rows since m)
  sorted_full m h =
      let same = Perm-length (Perm-select (λ (c : Candidate D). leb c.change_seq m) perm) in
      Perm.trans (Perm-select _ perm) (
        rw (← select-rows_after rows since m)
          (fetched_full rows repo serves since m limit (omega arith)))

  -- The next group holds the window up to it, if it still fits.
  next_window :
      (included : List (Candidate D)) (last : ℕ) (g : SeqGroup D) (gs : List (SeqGroup D))
      → since ≤ last
      → Perm included (rows_between rows since last)
      → select (λ c. ltb last c.change_seq) sorted ≡ members_of (g ∷ gs)
      → Ascending last (g ∷ gs)
      → length included + length g.members ≤ limit
      → Perm g.members (rows_between rows last g.seq)
  next_window included last g gs le t e a fits =
      let own = ap (select (λ c. leb c.change_seq g.seq)) e ∙ select_first last g gs a in
      let split =
        length-select_split (λ (c : Candidate D). c.change_seq) last g.seq sorted (omega arith) in
      let before = ap length (select-rows_after rows since last) in
      let full = sorted_full g.seq (
        omega (
          arith,
          split,
          ap length own,
          sorted_shorter (λ c. leb c.change_seq last),
          before,
          Perm-length t,
        )) in
      rw (← own, select_comm, ← rows_between-after rows since last g.seq le) (Perm-select _ full)

  -- If the next group does not fit, there is something beyond the page.
  next_beyond :
      (last : ℕ) (g : SeqGroup D) (gs : List (SeqGroup D))
      → since ≤ last
      → select (λ c. ltb last c.change_seq) sorted ≡ members_of (g ∷ gs)
      → 0 < length g.members
      → true ≡ ltb 0 (length (rows_after rows last))
  next_beyond last g gs le e h =
      let beyond : 0 < length (rows_after rows last) = omega (
        arith,
        sorted_shorter (λ c. ltb last c.change_seq),
        ap length (rows_after-rows_after rows since last le),
        ap length e,
        length-append g.members (members_of gs),
      ) in
      ground arith

  window_grows :
      (included : List (Candidate D)) (last : ℕ) (g : SeqGroup D) (gs : List (SeqGroup D))
      → since ≤ last
      → Perm included (rows_between rows since last)
      → Perm g.members (rows_between rows last g.seq)
      → last ≤ g.seq
      → Perm (included ++ g.members) (rows_between rows since g.seq)
  window_grows included last g gs le t u h =
      Perm.trans (Perm.append t u) (Perm.symm (rows_between-split rows since last g.seq le h))

  pub fill_page-Filled :
      (included : List (Candidate D)) (k last : ℕ) (gs : List (SeqGroup D))
      → Perm included (rows_between rows since last)
      → k ≡ length included
      → k ≤ limit
      → since ≤ last
      → select (λ c. ltb last c.change_seq) sorted ≡ members_of gs
      → Ascending last gs
      → Filled rows limit since last (fill_page repo limit included k last gs)
  unfolding fill_page
  fill_page-Filled included k last [] t l fits le e a = record {
    ordered = included;
    next = last;
    more = ltb 0 (length (rows_after rows last));
    result = rw (probe_has_more-eq rows repo serves last);
    window = t;
    rest = refl;
    forward = omega arith;
    size = inl (omega arith);
  }
  fill_page-Filled included k last (g ∷ gs) t l fits le e a =
      elim (Bool-cases (ltb limit (k + length g.members))) [
        | inl over ↦ rw over (record {
          ordered = included;
          next = last;
          more = true;
          result = refl;
          window = t;
          rest = next_beyond last g gs le e (ground arith);
          forward = omega arith;
          size = inl (omega arith);
        })
        | inr room ↦ rw room (
            let within : k + length g.members ≤ limit = ground arith in
            Filled-forward rows (omega arith) (
              fill_page-Filled (included ++ g.members) (k + length g.members) g.seq gs
                (window_grows included last g gs le t
                  (next_window included last g gs le t e a (omega arith)) (omega arith))
                (omega (arith, length-append included g.members)) within (omega arith)
                (sym (
                    select-select_beyond (λ (c : Candidate D). c.change_seq) last g.seq sorted
                      (omega arith))
                  ∙ ap (select (λ c. ltb g.seq c.change_seq)) e
                  ∙ select_others last g gs a)
                a.2))
      ]

  -- The first group: nothing stands before it, so the rows at its number are the first window.
  none_before :
      (g : SeqGroup D) (gs : List (SeqGroup D))
      → members_of (g ∷ gs) ≡ sorted
      → Ascending since (g ∷ gs)
      → rows_between rows since (g.seq - 1) ≡ []
  none_before g gs e a =
      let none =
        select_none (λ c. leb c.change_seq (g.seq - 1)) (members_of (g ∷ gs))
          (All-imp _ _ (members_of (g ∷ gs)) (λ c h. ground arith)
            (members_beyond (g.seq - 1) (g.seq - 1) (g ∷ gs) (omega arith)
              (omega arith, a.1, a.2))) in
      let none' = rw e at none in
      eq-nil_of_length _ (
        omega (
          arith,
          ap length none',
          Perm-length (sorted_full (g.seq - 1) (omega (arith, ap length none'))),
        ))

  pub pull_groups-Filled :
      (g : SeqGroup D) (gs : List (SeqGroup D))
      → members_of (g ∷ gs) ≡ sorted
      → Ascending since (g ∷ gs)
      → Filled rows limit since g.seq (pull_groups repo limit g gs)
  unfolding pull_groups
  pull_groups-Filled g gs e a =
      let (first_group, fetch, at) = fetch_at_seq-eq rows repo serves g.seq in
      let none = none_before g gs e a in
      let window = rw (rows_at-eq rows since g.seq a.0 none) at at in
      rw fetch (elim (Bool-cases (ltb limit (length first_group))) [
        | inl over ↦
            rw (over, probe_has_more-eq rows repo serves g.seq)
              (record {
                ordered = first_group;
                next = g.seq;
                more = ltb 0 (length (rows_after rows g.seq));
                result = refl;
                window = window;
                rest = refl;
                forward = omega arith;
                size = inr none;
              })
        | inr room ↦ rw room (
            fill_page-Filled first_group (length first_group) g.seq gs window refl (ground arith)
              (omega arith) (rw (← e) (select_others since g gs a)) a.2)
      ])
