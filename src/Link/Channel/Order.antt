-- ===== src/Link/Channel/Order.antt =====
-- Lists of messages in order, and what is kept of them: those above a seq, and those that are no heartbeat.
use mathlib.Core.Path.{fun_ext}
use asgard.Prelude.{
  subst, ◌&&◌, ℕ, ◌≤◌, ◌≡◌, refl, sym, ◌∙◌, ap, Bool, true, false, not, inl, inr, List, [], ◌∷◌,
  ◌++◌, keep_if, ltb, arith, Bool-cases,
}
use asgard.Link.{RunnerMessage}
use asgard.Link.Client.{is_heartbeat}
use asgard.Link.Client.Queue.{Between, Between-from}

abbrev pub above : ℕ → List RunnerMessage → List RunnerMessage
above k queue = keep_if (λ m. ltb k m.seq) queue

abbrev pub lasting : List RunnerMessage → List RunnerMessage
lasting queue = keep_if (λ m. not (is_heartbeat m)) queue

-- The loop of `writeLoop` leaves `sent` at the seq of the last message, if there is one.
unfoldable pub last_seq : ℕ → List RunnerMessage → ℕ
last_seq sent [] = sent
last_seq sent (m ∷ out) = last_seq m.seq out

module _ {ℓ} {A : Type ℓ} where
  pub keep_if_yes :
      (p : A → Bool) (x : A) (xs : List A) → p x ≡ true → keep_if p (x ∷ xs) ≡ x ∷ keep_if p xs
  unfolding keep_if
  keep_if_yes p x xs e = rw e refl

  pub keep_if_no :
      (p : A → Bool) (x : A) (xs : List A) → p x ≡ false → keep_if p (x ∷ xs) ≡ keep_if p xs
  unfolding keep_if
  keep_if_no p x xs e = rw e refl

  pub keep_if_nil : (p : A → Bool) → keep_if p [] ≡ []
  unfolding keep_if
  keep_if_nil p = refl

  pub keep_if-append :
      (p : A → Bool) (xs ys : List A) → keep_if p (xs ++ ys) ≡ keep_if p xs ++ keep_if p ys
  keep_if-append p [] ys = rw (keep_if_nil p) refl
  keep_if-append p (x ∷ xs) ys = elim (Bool-cases (p x)) [
    | inl stays ↦
        keep_if_yes p x (xs ++ ys) stays
        ∙ (ap (λ (l : List A). x ∷ l) (keep_if-append p xs ys)
            ∙ ap (λ (l : List A). l ++ keep_if p ys) (sym (keep_if_yes p x xs stays)))
    | inr goes ↦
        keep_if_no p x (xs ++ ys) goes
        ∙ (keep_if-append p xs ys
            ∙ ap (λ (l : List A). l ++ keep_if p ys) (sym (keep_if_no p x xs goes)))
  ]

  -- Two filters make the filter by both tests.
  keep_if-keep_if :
      (p q : A → Bool) (xs : List A) → keep_if p (keep_if q xs) ≡ keep_if (λ x. p x && q x) xs
  keep_if-keep_if p q [] = rw (keep_if_nil q) (keep_if_nil p ∙ sym (keep_if_nil (λ x. p x && q x)))
  keep_if-keep_if p q (x ∷ xs) = elim (Bool-cases (q x)) [
    | inr b ↦
        ap (keep_if p) (keep_if_no q x xs b)
        ∙ (keep_if-keep_if p q xs ∙ sym (keep_if_no (λ y. p y && q y) x xs (ground (arith, b))))
    | inl b ↦ elim (Bool-cases (p x)) [
      | inl a ↦
          ap (keep_if p) (keep_if_yes q x xs b)
          ∙ (keep_if_yes p x (keep_if q xs) a
              ∙ (ap (λ (l : List A). x ∷ l) (keep_if-keep_if p q xs)
                  ∙ sym (keep_if_yes (λ y. p y && q y) x xs (ground (arith, a, b)))))
      | inr a ↦
          ap (keep_if p) (keep_if_yes q x xs b)
          ∙ (keep_if_no p x (keep_if q xs) a
              ∙ (keep_if-keep_if p q xs
                  ∙ sym (keep_if_no (λ y. p y && q y) x xs (ground (arith, a)))))
    ]
  ]

  pub keep_if_comm :
      (p q : A → Bool) (xs : List A) → keep_if p (keep_if q xs) ≡ keep_if q (keep_if p xs)
  keep_if_comm p q xs =
      keep_if-keep_if p q xs
      ∙ (ap (λ (f : A → Bool). keep_if f xs) (fun_ext (λ x. both x)) ∙ sym (keep_if-keep_if q p xs))
    where
      both : (x : A) → (p x && q x) ≡ (q x && p x)
      both x = ground arith

  pub keep_if_twice : (p : A → Bool) (xs : List A) → keep_if p (keep_if p xs) ≡ keep_if p xs
  keep_if_twice p xs =
      keep_if-keep_if p p xs ∙ ap (λ (f : A → Bool). keep_if f xs) (fun_ext (λ x. same x))
    where
      same : (x : A) → (p x && p x) ≡ p x
      same x = ground arith

pub above-above :
    (k j : ℕ) (queue : List RunnerMessage) → j ≤ k → above k (above j queue) ≡ above k queue
above-above k j queue l =
    keep_if-keep_if (λ m. ltb k m.seq) (λ m. ltb j m.seq) queue
    ∙ ap (λ (f : RunnerMessage → Bool). keep_if f queue) (fun_ext (λ m. higher m))
  where
    higher : (m : RunnerMessage) → (ltb k m.seq && ltb j m.seq) ≡ ltb k m.seq
    higher m = ground arith

pub above-Between_id :
    (low k : ℕ) (queue : List RunnerMessage) (top : ℕ)
    → Between low queue top
    → k ≤ low
    → above k queue ≡ queue
above-Between_id low k [] top h l = keep_if_nil (λ (m : RunnerMessage). ltb k m.seq)
above-Between_id low k (m ∷ queue) top (a, h) l =
    keep_if_yes (λ m. ltb k m.seq) m queue (ground arith)
    ∙ ap (λ (q : List RunnerMessage). m ∷ q) (above-Between_id m.seq k queue top h (omega arith))

last_seq-above :
    (low : ℕ) (queue : List RunnerMessage) (top : ℕ)
    → Between low queue top
    → (low ≤ last_seq low queue) × (above (last_seq low queue) queue ≡ [])
unfolding last_seq
last_seq-above low [] top h = (omega arith, keep_if_nil (λ (m : RunnerMessage). ltb low m.seq))
last_seq-above low (m ∷ queue) top (l, h) =
    let (a, e) = last_seq-above m.seq queue top h in
    (omega arith, keep_if_no (λ x. ltb (last_seq m.seq queue) x.seq) m queue (ground arith) ∙ e)

above-all :
    (m : RunnerMessage) (sent : ℕ) (queue : List RunnerMessage) (top : ℕ)
    → Between m.seq queue top
    → ltb sent m.seq ≡ true
    → above sent (m ∷ queue) ≡ m ∷ queue
above-all m sent queue top h new =
    keep_if_yes (λ x. ltb sent x.seq) m queue new
    ∙ ap (λ (q : List RunnerMessage). m ∷ q)
        (above-Between_id m.seq sent queue top h (ground arith))

last_seq-step :
    (sent : ℕ) (m : RunnerMessage) (out : List RunnerMessage)
    → last_seq sent (m ∷ out) ≡ last_seq m.seq out
unfolding last_seq
last_seq-step sent m out = refl

last_seq_nil : (sent : ℕ) → last_seq sent [] ≡ sent
unfolding last_seq
last_seq_nil sent = refl

-- The last seq of a batch is no lower than the seq before it.
last_seq-le :
    (low sent : ℕ) (queue : List RunnerMessage) (top : ℕ)
    → Between low queue top
    → sent ≤ last_seq sent (above sent queue)
last_seq-le low sent [] top h =
    rw (keep_if_nil (λ (m : RunnerMessage). ltb sent m.seq)) (rw (last_seq_nil sent) (omega arith))
last_seq-le low sent (m ∷ queue) top (l, h) = elim (Bool-cases (ltb sent m.seq)) [
  | inl new ↦
      let a = (last_seq-above m.seq queue top h).0 in
      rw (above-all m sent queue top h new) (rw (last_seq-step sent m queue) (ground arith))
  | inr old ↦ rw (keep_if_no (λ x. ltb sent x.seq) m queue old) (last_seq-le m.seq sent queue top h)
]

last_of_all :
    (m : RunnerMessage) (queue : List RunnerMessage) (top : ℕ)
    → Between m.seq queue top
    → above (last_seq m.seq queue) (m ∷ queue) ≡ []
last_of_all m queue top h =
    let (a, e) = last_seq-above m.seq queue top h in
    keep_if_no (λ x. ltb (last_seq m.seq queue) x.seq) m queue (ground arith) ∙ e

-- After a batch has gone out, nothing of the queue is unsent.
pub batch-above :
    (low sent : ℕ) (queue : List RunnerMessage) (top : ℕ)
    → Between low queue top
    → above (last_seq sent (above sent queue)) queue ≡ []
batch-above low sent [] top h =
    keep_if_nil (λ (m : RunnerMessage). ltb (last_seq sent (above sent [])) m.seq)
batch-above low sent (m ∷ queue) top (l, h) = elim (Bool-cases (ltb sent m.seq)) [
  | inl new ↦
      subst (λ (out : List RunnerMessage). above (last_seq sent out) (m ∷ queue) ≡ [])
        (sym (above-all m sent queue top h new))
        (rw (last_seq-step sent m queue) (last_of_all m queue top h))
  | inr old ↦
      let e : above sent (m ∷ queue) ≡ above sent queue =
        keep_if_no (λ x. ltb sent x.seq) m queue old in
      let b = batch-above m.seq sent queue top h in
      subst (λ (out : List RunnerMessage). above (last_seq sent out) (m ∷ queue) ≡ []) (sym e)
        (keep_if_no (λ x. ltb (last_seq sent (above sent queue)) x.seq) m queue
            (let n = last_seq-le m.seq sent queue top h in ground arith)
          ∙ b)
]

pub last_seq-le_top :
    (low : ℕ) (queue : List RunnerMessage) (top : ℕ)
    → Between low queue top
    → last_seq low queue ≤ top
unfolding last_seq
last_seq-le_top low [] top h = h
last_seq-le_top low (m ∷ queue) top (l, h) = last_seq-le_top m.seq queue top h

pub batch-le_top :
    (low sent : ℕ) (queue : List RunnerMessage) (top : ℕ)
    → Between low queue top
    → sent ≤ top
    → last_seq sent (above sent queue) ≤ top
batch-le_top low sent [] top h l =
    rw (keep_if_nil (λ (m : RunnerMessage). ltb sent m.seq)) (rw (last_seq_nil sent) l)
batch-le_top low sent (m ∷ queue) top (k, h) l = elim (Bool-cases (ltb sent m.seq)) [
  | inl new ↦
      rw (above-all m sent queue top h new)
        (rw (last_seq-step sent m queue) (last_seq-le_top m.seq queue top h))
  | inr old ↦
      rw (keep_if_no (λ x. ltb sent x.seq) m queue old) (batch-le_top m.seq sent queue top h l)
]

pub Between-split :
    (low : ℕ) (xs ys : List RunnerMessage) (top : ℕ)
    → Between low (xs ++ ys) top
    → (mid : ℕ) × Between low xs mid × Between mid ys top
Between-split low [] ys top h = (low, omega arith, h)
Between-split low (m ∷ xs) ys top (l, h) =
    let (mid, a, b) = Between-split m.seq xs ys top h in (mid, (l, a), b)

pub Between-join :
    (low : ℕ) (xs : List RunnerMessage) (mid : ℕ) (ys : List RunnerMessage) (top : ℕ)
    → Between low xs mid
    → Between mid ys top
    → Between low (xs ++ ys) top
Between-join low [] mid ys top a b = Between-from mid low ys top a b
Between-join low (m ∷ xs) mid ys top (l, a) b = (l, Between-join m.seq xs mid ys top a b)

pub above-Between :
    (low k : ℕ) (queue : List RunnerMessage) (top : ℕ)
    → Between low queue top
    → k ≤ top
    → Between k (above k queue) top
above-Between low k [] top h l = rw (keep_if_nil (λ (m : RunnerMessage). ltb k m.seq)) l
above-Between low k (m ∷ queue) top (a, h) l = elim (Bool-cases (ltb k m.seq)) [
  | inl new ↦ rw (above-all m k queue top h new) (ground arith, h)
  | inr old ↦ rw (keep_if_no (λ x. ltb k x.seq) m queue old) (above-Between m.seq k queue top h l)
]
