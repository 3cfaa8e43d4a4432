-- ===== src/DirLock/Notices.antt =====
-- Whom `notify` of backend/lib/dirlock/dirlock.go tells.
use asgard.Prelude.Memᴰ
use asgard.Prelude.{
  ◌≡◌, ◌≢◌, ◌↔◌, refl, sym, ◌∙◌, ap, inl, inr, Bool, false, ◌||◌, List, [], ◌∷◌, Memᴰ, Text,
  text_eq, text_eq_sound, text_eq_complete, exists, Bool-cases, arith, Unique,
}
use asgard.DirLock.Status.{notify_from, notify}

abbrev seen_before : List Text → Text → Bool
seen_before seen c = exists (λ s. text_eq s c) seen

abbrev skips : List Text → Text → Bool
skips seen c = text_eq c [] || seen_before seen c

seen_cons :
    (a c : Text) (seen : List Text)
    → seen_before (a ∷ seen) c ≡ false
    → (a ≢ c) × (seen_before seen c ≡ false)
unfolding exists
seen_cons a c seen e = elim (Bool-cases (text_eq a c)) [
  | inl same ↦ (let e' = rw same at e in cc)
  | inr differs ↦ ((λ q. (let t = text_eq_complete a c q in cc)), rw differs at e)
]

cons_seen :
    (a c : Text) (seen : List Text)
    → a ≢ c
    → seen_before seen c ≡ false
    → seen_before (a ∷ seen) c ≡ false
unfolding exists
cons_seen a c seen n e = elim (Bool-cases (text_eq a c)) [
  | inl same ↦ absurd (n (text_eq_sound a c same))
  | inr differs ↦ rw (differs, e) refl
]

takes :
    (seen : List Text) (c : Text) → skips seen c ≡ false → (c ≢ []) × (seen_before seen c ≡ false)
takes seen c e = elim (Bool-cases (text_eq c [])) [
  | inl blank ↦ absurd (ground (arith, blank))
  | inr named ↦ ((λ q. (let t = text_eq_complete c [] q in cc)), ground arith)
]

skips_not :
    (seen : List Text) (c : Text) → c ≢ [] → seen_before seen c ≡ false → skips seen c ≡ false
skips_not seen c n e = elim (Bool-cases (text_eq c [])) [
  | inl blank ↦ absurd (n (text_eq_sound c [] blank))
  | inr named ↦ rw (named, e) refl
]

mem-notify_from :
    (seen cs : List Text) {c : Text}
    → Memᴰ c (notify_from seen cs)
    → Memᴰ c cs × (c ≢ []) × (seen_before seen c ≡ false)
unfolding notify_from
mem-notify_from seen [] i = elim i [ ]
mem-notify_from seen (a ∷ cs) {c} i = elim (Bool-cases (skips seen a)) [
  | inl skip ↦
      let (j, n, e) = mem-notify_from seen cs (rw (skip, notify_from) at i) in (Memᴰ.tail j, n, e)
  | inr take ↦ elim (Memᴰ.cases_cons (rw (take, notify_from) at i)) [
    | inl same ↦
        let (n, e) = takes seen a take in
        (Memᴰ.head same, (λ q. n (sym same ∙ q)), ap (seen_before seen) same ∙ e)
    | inr later ↦
        let (j, n, e) = mem-notify_from (a ∷ seen) cs later in
        (Memᴰ.tail j, n, (seen_cons a c seen e).1)
  ]
]

notify_from-mem :
    (seen cs : List Text) {c : Text}
    → Memᴰ c cs
    → c ≢ []
    → seen_before seen c ≡ false
    → Memᴰ c (notify_from seen cs)
unfolding notify_from
notify_from-mem seen [] i n e = elim i [ ]
notify_from-mem seen (a ∷ cs) {c} i n e = elim (Bool-cases (text_eq a c)) [
  | inl same ↦
      let q = text_eq_sound a c same in
      let skip : skips seen a ≡ false = ap (skips seen) q ∙ skips_not seen c n e in
      rw (skip, notify_from) (Memᴰ.head (sym q))
  | inr differs ↦ elim (Memᴰ.cases_cons i) [
    | inl q ↦ (let t = text_eq_complete a c (sym q) in cc)
    | inr j ↦ elim (Bool-cases (skips seen a)) [
      | inl skip ↦ rw (skip, notify_from) (notify_from-mem seen cs j n e)
      | inr take ↦
          rw (take, notify_from)
            (Memᴰ.tail (
              notify_from-mem (a ∷ seen) cs j n
                (cons_seen a c seen (λ q. (let t = text_eq_complete a c q in cc)) e)))
    ]
  ]
]

Unique-notify_from : (seen cs : List Text) → Unique (notify_from seen cs)
unfolding notify_from
Unique-notify_from seen [] = tt
Unique-notify_from seen (a ∷ cs) = elim (Bool-cases (skips seen a)) [
  | inl skip ↦ rw (skip, notify_from) (Unique-notify_from seen cs)
  | inr take ↦
      rw (take, notify_from)
        (
          (λ i. let (j, n, e) = mem-notify_from (a ∷ seen) cs i in (seen_cons a a seen e).0 refl),
          Unique-notify_from (a ∷ seen) cs,
        )
]

-- A round of notifications tells each chat of the list once, those with an empty id not at all, and nobody else.
pub mem-notify_iff :
    (cs : List Text)
    → Unique (notify cs) × ((c : Text) → Memᴰ c (notify cs) ↔ (Memᴰ c cs × (c ≢ [])))
unfolding notify exists
mem-notify_iff cs = (
  Unique-notify_from [] cs,
  (λ c. (
    (λ i. let (j, n, e) = mem-notify_from [] cs i in (j, n)),
    (λ x. notify_from-mem [] cs x.0 x.1 refl),
  )),
)
