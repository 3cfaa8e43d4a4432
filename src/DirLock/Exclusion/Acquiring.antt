-- ===== src/DirLock/Exclusion/Acquiring.antt =====
-- Each operation of backend/lib/dirlock/dirlock.go keeps mutual exclusion.
use asgard.Prelude.Memᴰ
use asgard.Prelude.{
  length, ◌≡◌, refl, sym, ◌∙◌, ap, ◌⊎◌, inl, inr, List, [], ◌∷◌, ◌++◌, Memᴰ, Text, none, arith,
  Bool-cases, Option-cases, subst, ◌==◌,
}
use asgard.DirLock.State.{Request, Holder, Waiter, Manager, find_holder, put_holder}
use asgard.DirLock.Holders.{find_holder-some, find_holder-none}
use asgard.DirLock.Conflicts.{find_conflict}
use asgard.DirLock.Apart.{IsFree, IsWalk, holder_conflict-none}
use asgard.DirLock.Sweep.{new_holder}
use asgard.DirLock.Acquire.{
  normalize, expands, target_mode, merged_dirs, expansion, entered, hold, enqueue, new_waiter,
  reenter, enter, acquire_normal, acquire,
}
use asgard.DirLock.Exclusion.{
  IsExclusive, queue, AgreesWith, HoldersAgree, RequestsAgree, IsSafe, IsFreeHolder,
  put-IsExclusive, put-HoldersAgree,
}

-- Fewer holders and fewer requests are as safe.
pub IsSafe-shrink :
    (m m' : Manager)
    → IsSafe m
    → ((h : Holder) → Memᴰ h m'.holders → Memᴰ h m.holders)
    → ((q : Request) → Memᴰ q (queue m') → Memᴰ q (queue m))
    → IsSafe m'
IsSafe-shrink m m' safe hs qs = record {
  exclusion = λ a i b j. safe.exclusion a (hs a i) b (hs b j);
  holders_agree = λ h q i j. safe.holders_agree h q (hs h i) (qs q j);
  requests_agree = λ p q i j. safe.requests_agree p q (qs p i) (qs q j);
}

-- An entry is written: its claim is free, and the waiting requests of its chat agree with it.
pub IsSafe-put :
    (m m' : Manager) (h : Holder)
    → IsSafe m
    → m'.holders ≡ put_holder h m.holders
    → queue m' ≡ queue m
    → IsFreeHolder h m.holders
    → ((q : Request) → Memᴰ q (queue m) → h.chat_id ≡ q.chat_id → AgreesWith h.runner_id h.mode q)
    → IsSafe m'
IsSafe-put m m' h safe hs qs free agree = record {
  exclusion = subst IsExclusive (sym hs) (put-IsExclusive h m.holders safe.exclusion free);
  holders_agree = subst (HoldersAgree m'.holders) (sym qs) (
      subst (λ (l : List Holder). HoldersAgree l (queue m)) (sym hs)
        (put-HoldersAgree h m.holders (queue m) safe.holders_agree agree));
  requests_agree = subst RequestsAgree (sym qs) safe.requests_agree;
}

-- A chat stays on one runner, and what it asks for while a request of it waits is in that request's mode.
pub record IsDisciplined (req : Request) (m : Manager) : Type 0 where
  pub pinned :
      (h : Holder) → Memᴰ h m.holders → h.chat_id ≡ req.chat_id → h.runner_id ≡ req.runner_id
  pub agreed :
      (q : Request)
      → Memᴰ q (queue m)
      → q.chat_id ≡ req.chat_id
      → (req.runner_id ≡ q.runner_id) × (req.mode ≡ q.mode)

hold-IsSafe :
    (h : Holder) (m : Manager)
    → IsSafe m
    → IsFreeHolder h m.holders
    → ((q : Request) → Memᴰ q (queue m) → h.chat_id ≡ q.chat_id → AgreesWith h.runner_id h.mode q)
    → IsSafe (hold h m).1
unfolding hold
hold-IsSafe h m safe free agree = IsSafe-put m (hold h m).1 h safe refl refl free agree

enqueue-IsSafe :
    (req : Request) (b : Holder) (d : Text) (m : Manager)
    → IsSafe m
    → IsDisciplined req m
    → find_holder req.chat_id m.holders ≡ none
    → IsSafe (enqueue req b d m).1
unfolding enqueue
enqueue-IsSafe req b d m safe ok absent = record {
  exclusion = safe.exclusion;
  holders_agree = λ h q i j same. elim (asked q j) [
    | inl old ↦ safe.holders_agree h q i old same
    | inr new ↦ absurd (
        find_holder-none req.chat_id m.holders absent i
          (same ∙ ap (λ (r : Request). r.chat_id) new))
  ];
  requests_agree = λ p q i j same. elim (asked p i) [
    | inl p_old ↦ elim (asked q j) [
      | inl q_old ↦ safe.requests_agree p q p_old q_old same
      | inr q_new ↦
          let (r, e) = ok.agreed p p_old (same ∙ ap (λ (r : Request). r.chat_id) q_new) in
          (
            sym r ∙ ap (λ (r : Request). r.runner_id) (sym q_new),
            sym e ∙ ap (λ (r : Request). r.mode) (sym q_new),
          )
    ]
    | inr p_new ↦ elim (asked q j) [
      | inl q_old ↦
          let (r, e) = ok.agreed q q_old (sym same ∙ ap (λ (r : Request). r.chat_id) p_new) in
          (ap (λ (r : Request). r.runner_id) p_new ∙ r, ap (λ (r : Request). r.mode) p_new ∙ e)
      | inr q_new ↦ (
        ap (λ (r : Request). r.runner_id) (p_new ∙ sym q_new),
        ap (λ (r : Request). r.mode) (p_new ∙ sym q_new),
      )
    ]
  ];
}
  where
    asked : (q : Request) → Memᴰ q (queue (enqueue req b d m).1) → Memᴰ q (queue m) ⊎ (q ≡ req)
    asked q i =
        let last = new_waiter req b d m.next_ticket in
        let (w, j, e) = Memᴰ.of_map (λ (w : Waiter). w.req) (m.waiters ++ last ∷ []) i in
        elim (Memᴰ.append_cases m.waiters j) [
          | inl old ↦
              inl
                (subst (λ (r : Request). Memᴰ r (queue m)) e (Memᴰ.map (λ (w : Waiter). w.req) old))
          | inr new ↦ inr (sym e ∙ ap (λ (w : Waiter). w.req) (Memᴰ.eq_of_singleton new))
        ]

module _ (walk : List Holder → List Holder) (ok : IsWalk walk) where
  pub find_conflict-none :
      (req : Request) (m : Manager)
      → find_conflict walk req m ≡ none
      → IsFree req.chat_id req.runner_id req.mode req.dirs m.holders
  unfolding find_conflict
  find_conflict-none req m e = holder_conflict-none walk ok req m.holders (ground (arith, e))

  enter-IsSafe :
      (req : Request) (m : Manager)
      → IsSafe m
      → IsDisciplined req m
      → find_holder req.chat_id m.holders ≡ none
      → IsSafe (enter walk req m).1
  unfolding enter
  enter-IsSafe req m safe disc absent = elim (Option-cases (find_conflict walk req m)) [
    | inl e ↦
        rw (e, enter)
          (hold-IsSafe (new_holder req) m safe (find_conflict-none req m e)
            (λ q j same. disc.agreed q j (sym same)))
    | inr ((b, d), e) ↦ rw (e, enter) (enqueue-IsSafe req b d m safe disc absent)
  ]

  target-agrees :
      (req : Request) (h : Holder) (q : Request)
      → h.mode ≡ q.mode
      → req.mode ≡ q.mode
      → target_mode req h ≡ q.mode
  target-agrees req h q e f = ground arith

  reenter-IsSafe :
      (req : Request) (h : Holder) (m : Manager)
      → IsSafe m
      → IsDisciplined req m
      → Memᴰ h m.holders
      → h.chat_id ≡ req.chat_id
      → IsSafe (reenter walk req h m).1
  unfolding reenter entered
  reenter-IsSafe req h m safe disc held same = elim (Bool-cases (expands req h)) [
    | inr covered ↦
        rw (covered, reenter)
          (hold-IsSafe (entered req h) m safe (safe.exclusion h held)
            (λ q j e. safe.holders_agree h q held j e))
    | inl wider ↦ elim (Option-cases (find_conflict walk (expansion req h) m)) [
      | inr ((b, d), e) ↦ rw (wider, e, reenter) safe
      | inl e ↦
          rw (wider, e, reenter)
            (hold-IsSafe
              (entered req (record h { dirs = merged_dirs req h; mode = target_mode req h })) m safe
              (λ b i other on.
                find_conflict-none (expansion req h) m e b i (λ f. other (f ∙ sym same))
                  (on ∙ disc.pinned h held same))
              (λ q j f.
                let (r, mode) = safe.holders_agree h q held j f in
                (r, target-agrees req h q mode (disc.agreed q j (sym f ∙ same)).1)))
    ]
  ]

  acquire_normal-IsSafe :
      (req : Request) (m : Manager)
      → IsSafe m
      → IsDisciplined req m
      → IsSafe (acquire_normal walk req m).1
  unfolding acquire_normal
  acquire_normal-IsSafe req m safe disc = elim (Bool-cases (length req.dirs == 0)) [
    | inl empty ↦ rw (empty, acquire_normal) safe
    | inr some_dir ↦ elim (Option-cases (find_holder req.chat_id m.holders)) [
      | inl absent ↦ rw (some_dir, absent, acquire_normal) (enter-IsSafe req m safe disc absent)
      | inr (h, e) ↦
          let (held, same) = find_holder-some req.chat_id m.holders e in
          rw (some_dir, e, acquire_normal) (reenter-IsSafe req h m safe disc held same)
    ]
  ]

  pub acquire-IsSafe :
      (req : Request) (m : Manager)
      → IsSafe m
      → IsDisciplined (normalize req) m
      → IsSafe (acquire walk req m).1
  unfolding acquire
  acquire-IsSafe req m = acquire_normal-IsSafe (normalize req) m
