-- ===== src/Link/Channel/Flight.antt =====
-- The two facts that the upstream direction of the link keeps, and what each event does to them.
use asgard.Prelude.{
  ℕ, suc, ◌≤◌, ◌<◌, ◌≡◌, sym, ◌∙◌, ap, subst, not, List, [], ◌∷◌, ◌++◌, append_assoc, append-nil,
  ltb, arith,
}
use asgard.Link.{RunnerMessage}
use asgard.Link.Client.{is_heartbeat}
use asgard.Link.Client.Queue.{Between, Between-low, Between-append, keep_if-Between}
use asgard.Link.Channel.Order.{
  above, lasting, last_seq, keep_if_yes, keep_if_no, keep_if_nil, keep_if-append, keep_if_comm,
  keep_if_twice, above-above, above-Between_id, batch-above, above-Between, Between-split,
  Between-join,
}

-- `highest` is the seq that the backend has reached, and `queue` what the runner has not yet been acknowledged.
pub record Balanced (highest : ℕ) (queue : List RunnerMessage) (next : ℕ) : Type 0 where
  pub ordered : Between 0 queue next
  pub covered : highest ≤ next

-- What is on its way, followed by what will be sent, is what the backend lacks.
pub record Flying (highest sent : ℕ) (pipe queue : List RunnerMessage) (next : ℕ) : Type 0 where
  pub chain : Between highest (pipe ++ above sent queue) next
  pub same : lasting (pipe ++ above sent queue) ≡ lasting (above highest queue)

above-lasting :
    (k : ℕ) (queue : List RunnerMessage) → above k (lasting queue) ≡ lasting (above k queue)
above-lasting k queue = keep_if_comm (λ m. ltb k m.seq) (λ m. not (is_heartbeat m)) queue

lasting-lasting : (queue : List RunnerMessage) → lasting (lasting queue) ≡ lasting queue
lasting-lasting queue = keep_if_twice (λ m. not (is_heartbeat m)) queue

lasting-append : (xs ys : List RunnerMessage) → lasting (xs ++ ys) ≡ lasting xs ++ lasting ys
lasting-append xs ys = keep_if-append (λ m. not (is_heartbeat m)) xs ys

above-snoc :
    (k : ℕ) (queue : List RunnerMessage) (m : RunnerMessage)
    → k < m.seq
    → above k (queue ++ m ∷ []) ≡ above k queue ++ m ∷ []
above-snoc k queue m l =
    keep_if-append (λ x. ltb k x.seq) queue (m ∷ [])
    ∙ ap (λ (t : List RunnerMessage). above k queue ++ t)
        (keep_if_yes (λ x. ltb k x.seq) m [] (ground arith)
          ∙ ap (λ (t : List RunnerMessage). m ∷ t)
              (keep_if_nil (λ (x : RunnerMessage). ltb k x.seq)))

module _ {highest next : ℕ} {queue : List RunnerMessage} where
  pub Balanced-lasting : Balanced highest queue next → Balanced highest (lasting queue) next
  Balanced-lasting b = record {
    ordered = keep_if-Between (λ m. not (is_heartbeat m)) 0 queue next b.ordered;
    covered = b.covered;
  }

  pub Balanced-snoc :
      (m : RunnerMessage)
      → Balanced highest queue next
      → m.seq ≡ suc next
      → Balanced highest (queue ++ m ∷ []) (suc next)
  Balanced-snoc m b e = record {
    ordered =
        subst (Between 0 (queue ++ m ∷ [])) e
          (Between-append 0 queue next m b.ordered (omega arith));
    covered = omega (arith, b.covered);
  }

  pub Balanced-trim :
      (acked : ℕ)
      → acked ≤ highest
      → Balanced highest queue next
      → Balanced highest (above acked queue) next
  Balanced-trim acked l b = record {
    ordered = keep_if-Between (λ m. ltb acked m.seq) 0 queue next b.ordered;
    covered = b.covered;
  }

module _ {highest sent next : ℕ} {pipe queue : List RunnerMessage} where
  pub Flying-lasting :
      Flying highest sent pipe queue next → Flying highest sent pipe (lasting queue) next
  Flying-lasting f = record {
    chain =
        (let (mid, a, b) = Between-split highest pipe (above sent queue) next f.chain in
          subst (λ (t : List RunnerMessage). Between highest (pipe ++ t) next)
            (sym (above-lasting sent queue))
            (Between-join highest pipe mid (lasting (above sent queue)) next a
              (keep_if-Between (λ m. not (is_heartbeat m)) mid (above sent queue) next b)));
    same =
        lasting-append pipe (above sent (lasting queue))
        ∙ (ap (λ (t : List RunnerMessage). lasting pipe ++ t)
              (ap lasting (above-lasting sent queue) ∙ lasting-lasting (above sent queue))
            ∙ (sym (lasting-append pipe (above sent queue))
                ∙ (f.same
                    ∙ sym (
                        ap lasting (above-lasting highest queue)
                        ∙ lasting-lasting (above highest queue)))));
  }

  pub Flying-snoc :
      (m : RunnerMessage)
      → Flying highest sent pipe queue next
      → sent ≤ next
      → m.seq ≡ suc next
      → Flying highest sent pipe (queue ++ m ∷ []) (suc next)
  Flying-snoc m f l e =
      let h = Between-low highest (pipe ++ above sent queue) next f.chain in
      let out : pipe ++ above sent (queue ++ m ∷ []) ≡ (pipe ++ above sent queue) ++ m ∷ [] =
        ap (λ (t : List RunnerMessage). pipe ++ t) (above-snoc sent queue m (omega arith))
        ∙ sym (append_assoc pipe (above sent queue) (m ∷ [])) in
      record {
        chain =
            subst (λ (t : List RunnerMessage). Between highest t (suc next)) (sym out)
              (subst (Between highest ((pipe ++ above sent queue) ++ m ∷ [])) e
                (Between-append highest (pipe ++ above sent queue) next m f.chain (omega arith)));
        same =
            ap lasting out
            ∙ (lasting-append (pipe ++ above sent queue) (m ∷ [])
                ∙ (ap (λ (t : List RunnerMessage). t ++ lasting (m ∷ [])) f.same
                    ∙ sym (
                        ap lasting (above-snoc highest queue m (omega arith))
                        ∙ lasting-append (above highest queue) (m ∷ []))));
      }

  pub Flying-trim :
      (acked : ℕ)
      → acked ≤ highest
      → Flying highest sent pipe queue next
      → Flying highest sent pipe (above acked queue) next
  Flying-trim acked l f =
      let (mid, a, b) = Between-split highest pipe (above sent queue) next f.chain in
      let g = Between-low highest pipe mid a in
      let e : above sent (above acked queue) ≡ above sent queue =
        keep_if_comm (λ m. ltb sent m.seq) (λ m. ltb acked m.seq) queue
        ∙ above-Between_id mid acked (above sent queue) next b (omega arith) in
      record {
        chain =
            subst (λ (t : List RunnerMessage). Between highest (pipe ++ t) next) (sym e) f.chain;
        same =
            ap (λ (t : List RunnerMessage). lasting (pipe ++ t)) e
            ∙ (f.same ∙ ap lasting (sym (above-above highest acked queue l)));
      }

  pub Flying-write :
      Balanced highest queue next
      → Flying highest sent pipe queue next
      → Flying highest (last_seq sent (above sent queue)) (pipe ++ above sent queue) queue next
  Flying-write b f =
      let e : (pipe ++ above sent queue) ++ above (last_seq sent (above sent queue)) queue
          ≡ pipe ++ above sent queue =
        ap (λ (t : List RunnerMessage). (pipe ++ above sent queue) ++ t)
          (batch-above 0 sent queue next b.ordered)
        ∙ append-nil (pipe ++ above sent queue) in
      record {
        chain = subst (λ (t : List RunnerMessage). Between highest t next) (sym e) f.chain;
        same = ap lasting e ∙ f.same;
      }

module _ {highest sent next : ℕ} {queue : List RunnerMessage} (m : RunnerMessage)
    (rest : List RunnerMessage) where
  pub Flying-deliver : Flying highest sent (m ∷ rest) queue next → Flying m.seq sent rest queue next
  Flying-deliver f =
      let (l, c) = f.chain in
      let r = rest ++ above sent queue in
      record {
        chain = c;
        same =
            ap lasting (
              sym (
                keep_if_no (λ x. ltb m.seq x.seq) m r (ground arith)
                ∙ above-Between_id m.seq m.seq r next c (omega arith)))
            ∙ (sym (above-lasting m.seq (m ∷ r))
                ∙ (ap (above m.seq) f.same
                    ∙ (above-lasting m.seq (above highest queue)
                        ∙ ap lasting (above-above m.seq highest queue (omega arith)))));
      }

  pub Balanced-deliver :
      Flying highest sent (m ∷ rest) queue next
      → Balanced highest queue next
      → Balanced m.seq queue next
  Balanced-deliver f b =
      let (l, c) = f.chain in
      record { ordered = b.ordered; covered = Between-low m.seq (rest ++ above sent queue) next c }

-- A new connection: nothing is on its way, and the runner has been told what the backend has reached.
pub Flying-attach :
    {highest next : ℕ} {queue : List RunnerMessage}
    → Balanced highest queue next
    → Flying highest 0 [] (above highest queue) next
Flying-attach {highest} {next} {queue} b =
    let c = above-Between 0 highest queue next b.ordered b.covered in
    let e : above 0 (above highest queue) ≡ above highest queue =
      above-Between_id highest 0 (above highest queue) next c (omega arith) in
    record {
      chain = subst (λ (t : List RunnerMessage). Between highest t next) (sym e) c;
      same = ap lasting (e ∙ sym (above-above highest highest queue (omega arith)));
    }
