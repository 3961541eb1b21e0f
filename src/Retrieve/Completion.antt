-- ===== src/Retrieve/Completion.antt =====
-- `dep_complete` of core/retrieve.c: it ends where the links have no cycle, and what it
-- makes of the resource and its dependents.
use Prim.Native.Nat.{Ordering}
use client.Base.{
  ℕ, zero, suc, ◌-◌, ◌^◌, ◌<◌, ◌≡◌, refl, sym, ◌∙◌, ap, Bool, true, false, Option, none, some, List,
  [], ◌∷◌, ◌==◌, arith, All, All-mono, Bool-cases, inl, inr,
}
use client.Base.Bits.{bit_and_zero_left}
use client.LinkedList.{Ptr, is_some, find_by_data}
use client.Retrieve.{Client}
use client.Retrieve.Update.{
  meet_req, is_met, drop_old, mark_complete, complete_round, complete_deps, dep_complete,
}
use client.Retrieve.Dependencies.{IsRanked, IsChecked, IsSettled, is_linked, Frame, drop_old-Frame}

-- A resource that may be called complete: a list, or one that lacks nothing.
abbrev pub IsReady : Client → Ptr → Type 0
IsReady c q = (c.stub q).is_list ≡ false → (c.stub q).flags ≡ 0

module _ (rank : Ptr → ℕ) where
  -- What a step towards completion keeps.
  pub record Progress (c d : Client) : Type 0 where
    pub complete : (q : Ptr) → (c.stub q).complete ≡ true → (d.stub q).complete ≡ true
    pub flags : (q : Ptr) → (c.stub q).flags ≡ 0 → (d.stub q).flags ≡ 0
    pub is_list : (q : Ptr) → (d.stub q).is_list ≡ (c.stub q).is_list
    pub ranked : IsRanked rank c → IsRanked rank d
    pub checked : IsChecked c → IsChecked d
    pub linked : (q e : Ptr) → is_linked d q e ≡ true → is_linked c q e ≡ true

  Progress-refl : (c : Client) → Progress c c
  Progress-refl c = record {
    complete = λ q h. h;
    flags = λ q h. h;
    is_list = λ q. refl;
    ranked = λ h. h;
    checked = λ h. h;
    linked = λ q e h. h;
  }

  Progress-trans : {c d e : Client} → Progress c d → Progress d e → Progress c e
  Progress-trans a b = record {
    complete = λ q h. b.complete q (a.complete q h);
    flags = λ q h. b.flags q (a.flags q h);
    is_list = λ q. b.is_list q ∙ a.is_list q;
    ranked = λ h. b.ranked (a.ranked h);
    checked = λ h. b.checked (a.checked h);
    linked = λ q e h. a.linked q e (b.linked q e h);
  }

  Frame-Progress : {c d : Client} → Frame rank c d → Progress c d
  Frame-Progress f = record {
    complete = λ q h. f.complete q ∙ h;
    flags = λ q h. f.flags q ∙ h;
    is_list = f.is_list;
    ranked = f.ranked;
    checked = λ h q a b. f.flags q ∙ h q (sym (f.complete q) ∙ a) (sym (f.is_list q) ∙ b);
    linked = f.linked;
  }

  Frame-IsSettled : {c d : Client} → Frame rank c d → (q : Ptr) → IsSettled c q → IsSettled d q
  Frame-IsSettled f q h a b = f.complete q ∙ h (sym (f.is_list q) ∙ a) (sym (f.flags q) ∙ b)

  mark_complete-deps :
      (s q : Ptr) (c : Client) → ((mark_complete s c).stub q).deps ≡ (c.stub q).deps
  unfolding mark_complete
  mark_complete-deps s q c = ground arith

  mark_complete-Progress : (s : Ptr) (c : Client) → IsReady c s → Progress c (mark_complete s c)
  unfolding mark_complete
  mark_complete-Progress s c ready = record {
    complete = λ q h. ground arith;
    flags = λ q h. ground arith;
    is_list = λ q. ground arith;
    ranked = λ h q. rw (mark_complete-deps s q c) (h q);
    checked = λ h q a b. ground (arith, h q, ready);
    linked = λ q e h. sym (ap (λ l. is_some (find_by_data l e)) (mark_complete-deps s q c)) ∙ h;
  }

  mark_complete-complete : (s : Ptr) (c : Client) → ((mark_complete s c).stub s).complete ≡ true
  unfolding mark_complete
  mark_complete-complete s c = ground arith

  mark_complete-IsSettled :
      (s q : Ptr) (c : Client) → IsSettled c q → IsSettled (mark_complete s c) q
  unfolding mark_complete
  mark_complete-IsSettled s q c h a b = ground (arith, h)

  module _ (compare_keys : Option ℕ → Option Ptr → Option Ptr → Ordering) where
    meet_req-deps :
        (s d q : Ptr) (c : Client) → ((meet_req compare_keys s d c).stub q).deps ≡ (c.stub q).deps
    unfolding meet_req
    meet_req-deps s d q c = ground arith

    meet_req-Progress : (s d : Ptr) (c : Client) → Progress c (meet_req compare_keys s d c)
    unfolding meet_req
    meet_req-Progress s d c = record {
      complete = λ q h. ground arith;
      flags = λ q h. ground (arith, bit_and_zero_left (2 ^ 32 - 1 - (c.stub s).flag));
      is_list = λ q. ground arith;
      ranked = λ h q. rw (meet_req-deps s d q c) (h q);
      checked = λ h q a b. ground (arith, h q, bit_and_zero_left (2 ^ 32 - 1 - (c.stub s).flag));
      linked = λ q e h. sym (ap (λ l. is_some (find_by_data l e)) (meet_req-deps s d q c)) ∙ h;
    }

    -- Only the dependent changes.
    meet_req-IsSettled :
        (s d q : Ptr) (c : Client)
        → (q == d) ≡ false
        → IsSettled c q
        → IsSettled (meet_req compare_keys s d c) q
    unfolding meet_req
    meet_req-IsSettled s d q c n h a b = ground (arith, h)

  -- The result of a completion of `s`.
  pub record Completes (s : Ptr) (c : Client) (r : Option Client) : Type 0 where
    pub after : Client
    pub returns : r ≡ some after
    pub progress : Progress c after
    pub complete : (after.stub s).complete ≡ true
    pub settled : (q : Ptr) → IsSettled c q → IsSettled after q
    -- Where a dependent of `s` lacks nothing any more, it is complete too.
    pub dependents : (d : Ptr) → is_linked after s d ≡ true → IsSettled after d

  -- The result of a round for the dependent `d`.
  record Round (d : Ptr) (c : Client) (r : Option Client) : Type 0 where
    after : Client
    returns : r ≡ some after
    progress : Progress c after
    settled : (q : Ptr) → IsSettled c q → IsSettled after q
    dependent : IsSettled after d

  -- The result of the loop over `l`.
  record Loop (s : Ptr) (l : List Ptr) (c : Client) (r : Option Client) : Type 0 where
    after : Client
    returns : r ≡ some after
    progress : Progress c after
    settled : (q : Ptr) → IsSettled c q → IsSettled after q
    dependents : All (λ d. is_linked after s d ≡ true → IsSettled after d) l

  module _ (compare_keys : Option ℕ → Option Ptr → Option Ptr → Ordering) (n : ℕ)
      (complete : Ptr → Client → Option Client)
      (completes : (d : Ptr) (c : Client)
        → rank d < n
        → IsRanked rank c
        → IsReady c d
        → Completes d c (complete d c)) where
    met_ends :
        (s d : Ptr) (c : Client)
        → rank d < n
        → IsRanked rank c
        → is_met ((meet_req compare_keys s d c).stub d) ≡ true
        → Round d c (complete d (drop_old d (meet_req compare_keys s d c)))
    met_ends s d c low ranked met =
        let c1 = meet_req compare_keys s d c in
        let p1 = meet_req-Progress compare_keys s d c in
        let f = drop_old-Frame rank d c1 in
        let p2 = Progress-trans p1 (Frame-Progress f) in
        let ready : IsReady c1 d = λ a. ground (arith, met, a) in
        let r =
          completes d (drop_old d c1) low (p2.ranked ranked)
            (λ a. f.flags d ∙ ready (sym (f.is_list d) ∙ a)) in
        record {
          after = r.after;
          returns = r.returns;
          progress = Progress-trans p2 r.progress;
          settled = λ q h. elim (Bool-cases (q == d)) [
            | inl e ↦ let same : q ≡ d = ground arith in rw same (λ a b. r.complete)
            | inr e ↦
                r.settled q (Frame-IsSettled f q (meet_req-IsSettled compare_keys s d q c e h))
          ];
          dependent = λ a b. r.complete;
        }

    unmet_ends :
        (s d : Ptr) (c : Client)
        → is_met ((meet_req compare_keys s d c).stub d) ≡ false
        → Round d c (some (meet_req compare_keys s d c))
    unmet_ends s d c unmet =
        let c1 = meet_req compare_keys s d c in
        let lacks : IsSettled c1 d = λ a b. ground (arith, unmet, a, b) in
        record {
          after = c1;
          returns = refl;
          progress = meet_req-Progress compare_keys s d c;
          settled = λ q h. elim (Bool-cases (q == d)) [
            | inl e ↦ let same : q ≡ d = ground arith in rw same lacks
            | inr e ↦ meet_req-IsSettled compare_keys s d q c e h
          ];
          dependent = lacks;
        }

    each_ends :
        (s d : Ptr) (c : Client)
        → rank d < n
        → IsRanked rank c
        → Round d c (complete_round compare_keys complete s d c)
    unfolding complete_round
    each_ends s d c low ranked = by_test (is_met ((meet_req compare_keys s d c).stub d)) refl
      where
        by_test :
            (b : Bool)
            → is_met ((meet_req compare_keys s d c).stub d) ≡ b
            → Round d c (elim b [
              | true ↦ complete d (drop_old d (meet_req compare_keys s d c))
              | false ↦ some (meet_req compare_keys s d c)
            ])
        by_test true e = met_ends s d c low ranked e
        by_test false e = unmet_ends s d c e

    module _ (s d : Ptr) (l : List Ptr)
        (rest : (c : Client)
          → IsRanked rank c
          → Loop s l c (complete_deps compare_keys complete s l c)) where
      -- What follows a round.
      follow : Option Client → Option Client
      follow r = elim r [ none ↦ none | some c ↦ complete_deps compare_keys complete s l c ]

      follow_step :
          (c : Client) (b : Bool)
          → rank d < n
          → IsRanked rank c
          → is_linked c s d ≡ b
          → Loop s (d ∷ l) c (
              follow
                (elim b [ true ↦ complete_round compare_keys complete s d c | false ↦ some c ]))
      unfolding follow
      follow_step c true low ranked e =
          let a = each_ends s d c low ranked in
          let b = rest a.after (a.progress.ranked ranked) in
          rw a.returns (record {
            after = b.after;
            returns = b.returns;
            progress = Progress-trans a.progress b.progress;
            settled = λ q h. b.settled q (a.settled q h);
            dependents = (λ h. b.settled d a.dependent, b.dependents);
          })
      follow_step c false low ranked e =
          let b = rest c ranked in
          record {
            after = b.after;
            returns = b.returns;
            progress = b.progress;
            settled = b.settled;
            dependents = (λ h x y. let again = b.progress.linked s d h in cc, b.dependents);
          }

    all_end :
        (s : Ptr) (l : List Ptr) (c : Client)
        → All (λ d. rank d < n) l
        → IsRanked rank c
        → Loop s l c (complete_deps compare_keys complete s l c)
    unfolding complete_deps follow
    all_end s [] c low ranked = record {
      after = c;
      returns = refl;
      progress = Progress-refl c;
      settled = λ q h. h;
      dependents = tt;
    }
    all_end s (d ∷ l) c low ranked =
        follow_step s d l (λ x r. all_end s l x low.1 r) c (is_linked c s d) low.0 ranked refl

  All-found :
      (P : Ptr → Type 0) (l : List Ptr) (d : Ptr)
      → All P l
      → is_some (find_by_data l d) ≡ true
      → P d
  unfolding find_by_data
  All-found P [] d h e = cc
  All-found P (x ∷ l) d h e = elim (Bool-cases (x == d)) [
    | inl hit ↦ let same : d ≡ x = ground arith in rw same h.0
    | inr miss ↦ All-found P l d h.1 (ground (arith, e, miss))
  ]

  module _ (compare_keys : Option ℕ → Option Ptr → Option Ptr → Ordering) (fuel : ℕ) (s : Ptr)
      (c : Client) where
    result_ends :
        IsReady c s
        → Loop s ((mark_complete s c).stub s).deps (mark_complete s c) (
            complete_deps compare_keys
              (dep_complete compare_keys fuel)
              s
              ((mark_complete s c).stub s).deps
              (mark_complete s c))
        → Completes s c (dep_complete compare_keys (suc fuel) s c)
    unfolding dep_complete
    result_ends ready r =
        let p = mark_complete-Progress s c ready in
        record {
          after = r.after;
          returns = r.returns;
          progress = Progress-trans p r.progress;
          complete = r.progress.complete s (mark_complete-complete s c);
          settled = λ q h. r.settled q (mark_complete-IsSettled s q c h);
          dependents = λ d h.
              All-found _ ((mark_complete s c).stub s).deps d r.dependents (r.progress.linked s d h)
                h;
        }

  -- Where the links have no cycle, `dep_complete` on a resource that is a list or lacks nothing
  -- returns once the fuel exceeds the resource's rank. The resource is then complete, and so is each
  -- dependent still linked to it that is no list and lacks nothing. What was complete stays so, no
  -- resource that lacks something is called complete, the links still have no cycle, and no
  -- dependent is added.
  pub dep_complete-Completes :
      (compare_keys : Option ℕ → Option Ptr → Option Ptr → Ordering) (fuel : ℕ) (s : Ptr)
      (c : Client)
      → rank s < fuel
      → IsRanked rank c
      → IsReady c s
      → Completes s c (dep_complete compare_keys fuel s c)
  dep_complete-Completes compare_keys zero s c low ranked ready = ground arith
  dep_complete-Completes compare_keys (suc fuel) s c low ranked ready =
      let c1 = mark_complete s c in
      let p = mark_complete-Progress s c ready in
      let below : All (λ d. rank d < fuel) (c1.stub s).deps =
        All-mono (c1.stub s).deps (λ d h. omega (arith, h, low)) (p.ranked ranked s) in
      let r =
        all_end compare_keys fuel (dep_complete compare_keys fuel)
          (λ d x a b e. dep_complete-Completes compare_keys fuel d x a b e) s (c1.stub s).deps c1
          below (p.ranked ranked) in
      result_ends compare_keys fuel s c ready r
