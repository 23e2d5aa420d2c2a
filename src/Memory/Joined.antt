-- ===== src/Memory/Joined.antt =====
-- kernel/src/heap.rs: a turn of the loop of `init_heap` joined with those behind it.
use jing_os.Base.{
  ℕ, suc, ◌+◌, ◌*◌, ◌/◌, ◌%◌, ◌≤◌, ◌<◌, ◌≡◌, ◌≢◌, refl, sym, ◌∙◌, ◌⊎◌, inl, inr, true, false, some,
  List, ltb, ◌==◌, arith, Bool-cases, Result, ok, err, and_then,
}
use jing_os.Memory.Region.{MemoryRegion}
use jing_os.Memory.Frames.{usable_frames, nth}
use jing_os.Memory.Inside.{IsMap, InsideSome, usable_frames-Inside}
use jing_os.Memory.Mapper.{MapToError, Mapper, State}
use jing_os.Memory.Backing.{
  All-nth, Distinct-nth, some-aligned, Backed, Mapped, Stopped, Loop, Turned, Turn,
}

same_page :
    (v page : ℕ) → page % 4096 ≡ 0 → page ≤ v → v < page + 4096 → (v / 4096 == page / 4096) ≡ true
same_page v page a l h = ground arith

other_page :
    (v page : ℕ)
    → page % 4096 ≡ 0
    → (v < page) ⊎ (page + 4096 ≤ v)
    → (v / 4096 == page / 4096) ≡ false
other_page v page a (inl h) = ground arith
other_page v page a (inr h) = ground arith

-- Two frames that are whole share no byte.
whole_frames :
    (f g a b : ℕ) → f % 4096 ≡ 0 → g % 4096 ≡ 0 → a < 4096 → b < 4096 → f + a ≡ g + b → f ≡ g
whole_frames f g a b hf hg ha hb e = omega arith

module _ (m : Mapper) (rs : List MemoryRegion) (map : IsMap rs) (n page frame : ℕ)
    (aligned : page % 4096 ≡ 0) where
  -- Two addresses in different frames translate to different addresses.
  Backed-ne :
      (s : State m) (low v w : ℕ)
      → Backed m rs s (suc low) w
      → nth (usable_frames rs) low ≡ some frame
      → m.translate_addr s.pages v ≡ some (frame + v % 4096)
      → m.translate_addr s.pages v ≢ m.translate_addr s.pages w
  Backed-ne s low v w b t e same =
      let (inside, distinct) = usable_frames-Inside rs map in
      let ne : frame ≢ b.frame =
        Distinct-nth (usable_frames rs) low b.index frame b.frame distinct b.above t b.taken in
      let f-aligned =
        some-aligned rs frame (All-nth (InsideSome rs) (usable_frames rs) low frame inside t) in
      let b-aligned =
        some-aligned rs b.frame
          (All-nth (InsideSome rs) (usable_frames rs) b.index b.frame inside b.taken) in
      let eq : frame + v % 4096 ≡ b.frame + w % 4096 =
        ground (arith, sym e ∙ same ∙ b.translated) in
      ne (
        whole_frames frame b.frame (v % 4096) (w % 4096) f-aligned b-aligned (omega arith)
          (omega arith) eq)

  module _ (s s' s'' : State m) (turned : Turned m page frame s s')
      (taken : nth (usable_frames rs) s.allocator.next ≡ some frame)
      (rest : Mapped m rs n (page + 4096) s' s'') where
    head_translated :
        (v : ℕ)
        → page ≤ v
        → v < page + 4096
        → m.translate_addr s''.pages v ≡ some (frame + v % 4096)
    head_translated v l h =
        rest.others v (inl h) ∙ turned.translated v ∙ rw (same_page v page aligned l h) refl

    tail-Backed :
        (v : ℕ)
        → page + 4096 ≤ v
        → v < page + suc n * 4096
        → Backed m rs s'' (suc s.allocator.next) v
    tail-Backed v l h =
        let b = rest.backed v l (omega arith) in
        record {
          index = b.index;
          frame = b.frame;
          above = omega (arith, b.above, turned.next);
          taken = b.taken;
          translated = b.translated;
        }

    joined-Backed :
        (v : ℕ) → page ≤ v → v < page + suc n * 4096 → Backed m rs s'' s.allocator.next v
    joined-Backed v l h = elim (Bool-cases (ltb v (page + 4096))) [
      | inl c ↦ record {
        index = s.allocator.next;
        frame = frame;
        above = omega arith;
        taken = taken;
        translated = head_translated v l (ground arith);
      }
      | inr c ↦
          let b = tail-Backed v (ground arith) h in
          record {
            index = b.index;
            frame = b.frame;
            above = omega (arith, b.above);
            taken = b.taken;
            translated = b.translated;
          }
    ]

    joined-apart :
        (v w : ℕ)
        → page ≤ v
        → v < page + suc n * 4096
        → page ≤ w
        → w < page + suc n * 4096
        → m.translate_addr s''.pages v ≡ m.translate_addr s''.pages w
        → v ≡ w
    joined-apart v w l h l' h' e = elim (Bool-cases (ltb v (page + 4096))) [
      | inl c ↦
          let t = head_translated v l (ground arith) in
          elim (Bool-cases (ltb w (page + 4096))) [
            | inl d ↦
                let t' = head_translated w l' (ground arith) in
                let eq : frame + v % 4096 ≡ frame + w % 4096 = ground (arith, sym t ∙ e ∙ t') in
                near v w l (ground arith) l' (ground arith) (omega arith)
            | inr d ↦
                absurd
                  (Backed-ne s'' s.allocator.next v w (tail-Backed w (ground arith) h') taken t e)
          ]
      | inr c ↦ elim (Bool-cases (ltb w (page + 4096))) [
        | inl d ↦ absurd (
            Backed-ne s'' s.allocator.next w v (tail-Backed v (ground arith) h) taken
              (head_translated w l' (ground arith)) (sym e))
        | inr d ↦ rest.apart v w (ground arith) (omega arith) (ground arith) (omega arith) e
      ]
    ]
      where
        near :
            (v w : ℕ)
            → page ≤ v
            → v < page + 4096
            → page ≤ w
            → w < page + 4096
            → v % 4096 ≡ w % 4096
            → v ≡ w
        near v w l h l' h' e = omega (arith, aligned)

    joined-others :
        (v : ℕ)
        → (v < page) ⊎ (page + suc n * 4096 ≤ v)
        → m.translate_addr s''.pages v ≡ m.translate_addr s.pages v
    joined-others v (inl h) =
        rest.others v (inl (omega arith))
        ∙ turned.translated v
        ∙ rw (other_page v page aligned (inl h)) refl
    joined-others v (inr h) =
        rest.others v (inr (omega arith))
        ∙ turned.translated v
        ∙ rw (other_page v page aligned (inr (omega arith))) refl

    joined-Mapped : Mapped m rs (suc n) page s s''
    joined-Mapped = record {
      backed = joined-Backed;
      apart = joined-apart;
      others = joined-others;
      heap = rest.heap ∙ turned.heap;
    }

  Stopped-others :
      (s s' s'' : State m)
      → Turned m page frame s s'
      → Stopped m n (page + 4096) s' s''
      → (v : ℕ) → (v < page) ⊎ (page + suc n * 4096 ≤ v)
      → m.translate_addr s''.pages v ≡ m.translate_addr s.pages v
  Stopped-others s s' s'' turned rest v (inl h) =
      rest.others v (inl (omega arith))
      ∙ turned.translated v
      ∙ rw (other_page v page aligned (inl h)) refl
  Stopped-others s s' s'' turned rest v (inr h) =
      rest.others v (inr (omega arith))
      ∙ turned.translated v
      ∙ rw (other_page v page aligned (inr (omega arith))) refl

  join_lem :
      (s s' : State m) (r : Result (Unit {0}) MapToError × State m)
      → Turned m page frame s s'
      → nth (usable_frames rs) s.allocator.next ≡ some frame
      → Loop m rs n (page + 4096) s' r
      → Loop m rs (suc n) page s r
  join_lem s s' (ok u, s'') turned taken rest = joined-Mapped s s' s'' turned taken rest
  join_lem s s' (err e, s'') turned taken rest = record {
    others = Stopped-others s s' s'' turned rest;
    heap = rest.heap ∙ turned.heap;
  }

  -- A turn, and what is behind it.
  pub and_then_lem :
      (s : State m) (t : Result (Unit {0}) MapToError × State m)
      (f : State m → Result (Unit {0}) MapToError × State m)
      → Turn m page frame s t
      → nth (usable_frames rs) s.allocator.next ≡ some frame
      → ((s' : State m)
          → s'.allocator.memory_regions ≡ s.allocator.memory_regions
          → Loop m rs n (page + 4096) s' (f s'))
      → Loop m rs (suc n) page s (and_then t f)
  and_then_lem s (ok u, s') f turned taken k =
      join_lem s s' (f s') turned taken (k s' turned.regions)
  and_then_lem s (err e, s') f stopped taken k = record {
    others = λ v. elim [
      | inl h ↦ stopped.others v (inl h)
      | inr h ↦ stopped.others v (inr (omega arith))
    ];
    heap = stopped.heap;
  }
