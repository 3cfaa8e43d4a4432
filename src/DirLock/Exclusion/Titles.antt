-- ===== src/DirLock/Exclusion/Titles.antt =====
-- `UpdateChatTitle` of backend/lib/dirlock/dirlock.go keeps mutual exclusion.
use asgard.Prelude.Memᴰ
use asgard.Prelude.{
  [], ◌≡◌, refl, sym, ◌∙◌, ap, inl, inr, Memᴰ, List, map, Text, text_eq, arith, Bool-cases,
  Option-cases,
}
use asgard.DirLock.State.{Request, Holder, Waiter, Manager, find_holder, put_holder}
use asgard.DirLock.Holders.{find_holder-some}
use asgard.DirLock.Status.{retitle, update_chat_title}
use asgard.DirLock.Exclusion.{queue, IsSafe}
use asgard.DirLock.Exclusion.Acquiring.{IsSafe-put}

-- One request makes the claim of another.
abbrev SameClaim : Request → Request → Type 0
SameClaim q r = (q.chat_id ≡ r.chat_id) × (q.runner_id ≡ r.runner_id) × (q.mode ≡ r.mode)

retitle-claim : (chat title : Text) (w : Waiter) → SameClaim (retitle chat title w).req w.req
unfolding retitle
retitle-claim chat title w = ground arith

IsSafe-relabel :
    (m m' : Manager)
    → IsSafe m
    → m'.holders ≡ m.holders
    → ((q : Request) → Memᴰ q (queue m') → (r : Request) × Memᴰ r (queue m) × SameClaim q r)
    → IsSafe m'
IsSafe-relabel m m' safe hs old = record {
  exclusion = rw hs safe.exclusion;
  holders_agree = λ h q i j same.
      let (r, k, claim) = old q j in
      let (c, run, mode) = claim in
      let (x, y) = safe.holders_agree h r (rw hs at i) k (same ∙ c) in (x ∙ sym run, y ∙ sym mode);
  requests_agree = λ p q i j same.
      let (r, k, claim) = old p i in
      let (c, run, mode) = claim in
      let (s, l, claim') = old q j in
      let (d, run', mode') = claim' in
      let (x, y) = safe.requests_agree r s k l (sym c ∙ (same ∙ d)) in
      (run ∙ (x ∙ sym run'), mode ∙ (y ∙ sym mode'));
}

-- The waiters after the loop make the claims of the waiters before it.
retitled-old :
    (chat title : Text) (ws : List Waiter) (q : Request)
    → Memᴰ q (map (λ (w : Waiter). w.req) (map (retitle chat title) ws))
    → (r : Request) × Memᴰ r (map (λ (w : Waiter). w.req) ws) × SameClaim q r
retitled-old chat title ws q i =
    let (w', j, e) = Memᴰ.of_map (λ (w : Waiter). w.req) (map (retitle chat title) ws) i in
    let (w, k, f) = Memᴰ.of_map (retitle chat title) ws j in
    let (c, run, mode) = retitle-claim chat title w in
    let g : q ≡ (retitle chat title w).req = sym e ∙ ap (λ (v : Waiter). v.req) (sym f) in
    (
      w.req,
      Memᴰ.map (λ (w : Waiter). w.req) k,
      (
        ap (λ (r : Request). r.chat_id) g ∙ c,
        ap (λ (r : Request). r.runner_id) g ∙ run,
        ap (λ (r : Request). r.mode) g ∙ mode,
      ),
    )

pub update_chat_title-IsSafe :
    (chat title : Text) (m : Manager) → IsSafe m → IsSafe (update_chat_title chat title m).0
unfolding update_chat_title
update_chat_title-IsSafe chat title m safe = elim (Bool-cases (text_eq title [])) [
  | inl blank ↦ rw (blank, update_chat_title) safe
  | inr named ↦ elim (Option-cases (find_holder chat m.holders)) [
    | inl e ↦
        rw (named, e, update_chat_title)
          (IsSafe-relabel m _ safe refl (retitled-old chat title m.waiters))
    | inr (h, e) ↦
        let (held, same) = find_holder-some chat m.holders e in
        let h' : Holder = record h { title = title } in
        let m' : Manager = record m { holders = put_holder h' m.holders } in
        rw (named, e, update_chat_title)
          (IsSafe-relabel m' _
            (IsSafe-put m m' h' safe refl refl (safe.exclusion h held)
              (λ q j f. safe.holders_agree h q held j f))
            refl (retitled-old chat title m.waiters))
  ]
]
