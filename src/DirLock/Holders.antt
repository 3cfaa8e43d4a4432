-- ===== src/DirLock/Holders.antt =====
-- Laws of the map of holders of backend/lib/dirlock/dirlock.go.
use asgard.Prelude.Memᴰ
use asgard.Prelude.{
  ◌≡◌, refl, sym, ◌∙◌, ap, ◌≢◌, ◌⊎◌, inl, inr, true, false, not, List, [], ◌∷◌, Memᴰ, none, some,
  Text, text_eq, text_eq_sound, text_eq_complete, arith, Bool-cases, mem-keep_if, keep_if-mem,
}
use asgard.DirLock.State.{Holder, find_holder, delete_holder, put_holder}

pub text_eq-ne : (s t : Text) → not (text_eq s t) ≡ true → s ≢ t
text_eq-ne s t h e = let e' = text_eq_complete s t e in ground arith

pub ne-text_eq : (s t : Text) → s ≢ t → text_eq s t ≡ false
ne-text_eq s t n = elim (Bool-cases (text_eq s t)) [
  | inl e ↦ absurd (n (text_eq_sound s t e))
  | inr e ↦ e
]

pub find_holder-some :
    (c : Text) (hs : List Holder) {h : Holder}
    → find_holder c hs ≡ some h
    → Memᴰ h hs × (h.chat_id ≡ c)
unfolding find_holder
find_holder-some c [] e = cc
find_holder-some c (x ∷ hs) {h} e = elim (Bool-cases (text_eq x.chat_id c)) [
  | inl same ↦
      let x≡h : x ≡ h = (let e' = rw (same, find_holder) at e in cc) in
      (
        Memᴰ.head (sym x≡h),
        ap (λ (k : Holder). k.chat_id) (sym x≡h) ∙ text_eq_sound x.chat_id c same,
      )
  | inr differs ↦
      let (i, q) = find_holder-some c hs (rw (differs, find_holder) at e) in (Memᴰ.tail i, q)
]

pub find_holder-none :
    (c : Text) (hs : List Holder) {h : Holder} → find_holder c hs ≡ none → Memᴰ h hs → h.chat_id ≢ c
unfolding find_holder
find_holder-none c [] e i same = elim i [ ]
find_holder-none c (x ∷ hs) {h} e i same = elim (Bool-cases (text_eq x.chat_id c)) [
  | inl eq ↦ (let e' = rw (eq, find_holder) at e in cc)
  | inr differs ↦ elim (Memᴰ.cases_cons i) [
    | inl here ↦
        let eq = text_eq_complete x.chat_id c (ap (λ (k : Holder). k.chat_id) (sym here) ∙ same) in
        cc
    | inr there ↦ find_holder-none c hs (rw (differs, find_holder) at e) there same
  ]
]

pub mem-delete_holder :
    (c : Text) (hs : List Holder) {b : Holder}
    → Memᴰ b (delete_holder c hs)
    → Memᴰ b hs × (b.chat_id ≢ c)
unfolding delete_holder
mem-delete_holder c hs {b} i =
    let (j, q) = mem-keep_if (λ (h : Holder). not (text_eq h.chat_id c)) hs i in
    (j, text_eq-ne b.chat_id c q)

pub delete_holder-mem :
    (c : Text) (hs : List Holder) {b : Holder}
    → Memᴰ b hs
    → b.chat_id ≢ c
    → Memᴰ b (delete_holder c hs)
unfolding delete_holder
delete_holder-mem c hs {b} i n =
    let e = ne-text_eq b.chat_id c n in
    keep_if-mem (λ (h : Holder). not (text_eq h.chat_id c)) hs i (rw e)

pub mem-put_holder :
    (h : Holder) (hs : List Holder) {b : Holder}
    → Memᴰ b (put_holder h hs)
    → (b ≡ h) ⊎ (Memᴰ b hs × (b.chat_id ≢ h.chat_id))
unfolding put_holder
mem-put_holder h hs i = elim (Memᴰ.cases_cons i) [
  | inl e ↦ inl e
  | inr j ↦ inr (mem-delete_holder h.chat_id hs j)
]

pub put_holder-mem_self : (h : Holder) (hs : List Holder) → Memᴰ h (put_holder h hs)
unfolding put_holder
put_holder-mem_self h hs = Memᴰ.head refl

pub put_holder-mem_other :
    (h : Holder) (hs : List Holder) {b : Holder}
    → Memᴰ b hs
    → b.chat_id ≢ h.chat_id
    → Memᴰ b (put_holder h hs)
unfolding put_holder
put_holder-mem_other h hs i n = Memᴰ.tail (delete_holder-mem h.chat_id hs i n)
