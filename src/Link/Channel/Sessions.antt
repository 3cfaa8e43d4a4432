-- ===== src/Link/Channel/Sessions.antt =====
-- What the link keeps upstream when the backend reads a message, and when the runner connects again.
use asgard.Prelude.{
  ℕ, ◌≤◌, ◌<◌, ◌≡◌, refl, sym, subst, ◌∙◌, ap, ◌⊎◌, inl, inr, Bool, true, false, List, [], ◌∷◌,
  Text, Option, none, some, if◌then◌else◌, text_eq, arith, Option-cases,
}
use asgard.Link.{Payload, RunnerMessage}
use asgard.Link.Client.{Options, Client, trim, attach}
use asgard.Link.Client.Queue.{IsQueue, trim-queue}
use asgard.Link.Client.Steps.{attach-IsQueue}
use asgard.Link.Hub.{is_bound, Node, Connection, Hub, sequenced, UpstreamError}
use asgard.Link.Hub.Handling.{Begun, go_on, handle_upstream}
use asgard.Link.Hub.Fresh.{Reached, handled-Reached, handled-error, handled-missing, go_on-late}
use asgard.Link.Hub.Registry.{
  Register, Registered, rejected, accepted, node_of, register_node, detach_node,
}
use asgard.Link.Hub.Registry.Starts.{node_of-at}
use asgard.Link.Channel.{
  Channel, entry, highest, delivered, deliver_first, deliver, go_on_late, registered, unanswered,
  new_connection, reconnect, reply_lost,
}
use asgard.Link.Channel.Order.{above}
use asgard.Link.Channel.Flight.{
  Balanced, Flying, Balanced-trim, Flying-deliver, Balanced-deliver, Flying-attach,
}
use asgard.Link.Channel.Registering.{SameReach, register_node-reach, detach_node-SameReach}
use asgard.Link.Channel.Invariant.{if-elim, AllReached, AllReached-le, Inv, changed-Inv, closed-Inv}

module _ (size : ℕ → Payload → ℕ) (can_encode : Payload → Bool) (opts : Options)
    (is_allowed : Text → Bool) (boot : Text) where
  -- The backend has applied the first message of the pipe.
  fresh-Inv :
      (m : RunnerMessage) (rest : List RunnerMessage) (c : Connection) (h : Hub) (s : Channel)
      → Inv size can_encode opts boot s
      → s.bound ≡ true
      → Reached s.conn (entry s) m.seq c h
      → Flying (highest s) s.sent (m ∷ rest) s.client.queue s.client.next_seq
      → Inv size can_encode opts boot (record s { conn = c; hub = h; pipe = rest })
  fresh-Inv m rest c h s i up ((n, at_node, top, of), a, id) f =
      let e : node_of c.node_id h ≡ n =
        ap (λ (x : Text). node_of x h) id ∙ node_of-at s.conn.node_id n h at_node in
      let reached : (node_of c.node_id h).highest_runner_seq ≡ m.seq =
        ap (λ (x : Node). x.highest_runner_seq) e ∙ top in
      let (l, k) = f.chain in
      let told = AllReached-le (highest s) m.seq s.acks i.told (omega arith) in
      record {
        counted = i.counted;
        balanced =
            subst (λ (k : ℕ). Balanced k s.client.queue s.client.next_seq) (sym reached)
              (Balanced-deliver m rest f i.balanced);
        flying = λ b.
            subst (λ (k : ℕ). Flying k s.sent rest s.client.queue s.client.next_seq) (sym reached)
              (Flying-deliver m rest f);
        behind = i.behind;
        told = subst (λ (k : ℕ). AllReached k s.acks) (sym reached) told;
        acked = subst (λ (k : ℕ). c.ack_seq ≤ k) (sym reached) (omega (arith, a));
        process = inl (
            ap (λ (x : Node). x.runner_boot_id) e
            ∙ (of ∙ (elim i.process [ inl x ↦ x | inr (_, free) ↦ cc ])));
      }

  -- After an error the session is closed.
  failed-Inv :
      (s : Channel) (h : Hub)
      → Inv size can_encode opts boot s
      → SameReach (entry s) (node_of s.conn.node_id h)
      → Inv size can_encode opts boot
          (record s { hub = detach_node s.conn h; pipe = []; bound = false })
  failed-Inv s h i (top, of) =
      let (a, b) = detach_node-SameReach s.conn h in
      closed-Inv size can_encode opts is_allowed boot (detach_node s.conn h) s (a ∙ top, b ∙ of) i

  delivered-Inv :
      (fails : Bool) (m : RunnerMessage) (rest : List RunnerMessage) (s : Channel)
      → Inv size can_encode opts boot s
      → s.bound ≡ true
      → Flying (highest s) s.sent (m ∷ rest) s.client.queue s.client.next_seq
      → (x : Option UpstreamError) (c : Connection) (h : Hub)
      → handle_upstream fails s.conn (sequenced m) s.hub ≡ (x, c, h)
      → Inv size can_encode opts boot (delivered (record s { pipe = rest }) (x, c, h))
  unfolding delivered
  delivered-Inv fails m rest s i up f x c h e = elim (Option-cases (s.hub.nodes s.conn.node_id)) [
    | inl gone ↦
        let g = sym e ∙ handled-missing fails s.conn m s.hub gone in
        subst
          (λ (y : Option UpstreamError × Connection × Hub).
            Inv size can_encode opts boot (delivered (record s { pipe = rest }) y))
          (sym g) (failed-Inv s s.hub i (refl, refl))
    | inr (n, at_node) ↦
        let here = node_of-at s.conn.node_id n s.hub at_node in
        let (l, k) = f.chain in
        let fresh = subst (λ (y : Node). y.highest_runner_seq < m.seq) here l in
        answered n here x c h e at_node fresh
  ]
    where
      answered :
          (n : Node)
          → entry s ≡ n
          → (x : Option UpstreamError) (c : Connection) (h : Hub)
          → handle_upstream fails s.conn (sequenced m) s.hub ≡ (x, c, h)
          → s.hub.nodes s.conn.node_id ≡ some n
          → n.highest_runner_seq < m.seq
          → Inv size can_encode opts boot (delivered (record s { pipe = rest }) (x, c, h))
      answered n here none c h e at_node fresh =
          let r = handled-Reached fails s.conn m n s.hub at_node fresh (ap (λ (y : _). y.0) e) in
          fresh-Inv m rest c h s i up
            (subst (λ (y : Node). Reached s.conn y m.seq c h) (sym here)
              (subst (λ (y : Connection × Hub). Reached s.conn n m.seq y.0 y.1)
                (ap (λ (y : Option UpstreamError × Connection × Hub). (y.1, y.2)) e) r))
            f
      answered n here (some err) c h e at_node fresh =
          let (same, (now, at_now, top, of)) =
            handled-error fails s.conn m n s.hub err at_node fresh (ap (λ (y : _). y.0) e) in
          let own : c ≡ s.conn = sym (ap (λ (y : _). y.1) e) ∙ same in
          let hub = ap (λ (y : _). y.2) e in
          let there : node_of s.conn.node_id h ≡ now =
            node_of-at s.conn.node_id now h
              (ap (λ (g : Hub). g.nodes s.conn.node_id) (sym hub) ∙ at_now) in
          subst
            (λ (y : Connection).
              Inv size can_encode opts boot
                (record s { conn = y; hub = detach_node y h; pipe = []; bound = false }))
            (sym own)
            (failed-Inv s h i (
              ap (λ (y : Node). y.highest_runner_seq) there
                  ∙ (top ∙ ap (λ (y : Node). y.highest_runner_seq) (sym here)),
              ap (λ (y : Node). y.runner_boot_id) there
                  ∙ (of ∙ ap (λ (y : Node). y.runner_boot_id) (sym here)),
            ))

  pub deliver-Inv :
      (fails : Bool) (s : Channel)
      → Inv size can_encode opts boot s
      → Inv size can_encode opts boot (deliver fails s)
  unfolding deliver deliver_first
  deliver-Inv fails s i =
      if-elim (Inv size can_encode opts boot) s.bound (λ b. turn s.pipe (i.flying b) b) i
    where
      turn :
          (pipe : List RunnerMessage)
          → Flying (highest s) s.sent pipe s.client.queue s.client.next_seq
          → s.bound ≡ true
          → Inv size can_encode opts boot (deliver_first fails pipe s)
      turn [] f b = i
      turn (m ∷ rest) f b = delivered-Inv fails m rest s i b f _ _ _ refl

  -- The handler of a superseded connection.
  pub late-Inv :
      (fails : Bool) (c : Connection) (b : Begun) (n : Node) (s : Channel)
      → c.node_id ≡ s.conn.node_id
      → s.hub.nodes c.node_id ≡ some n
      → is_bound c n ≡ false
      → Inv size can_encode opts boot s
      → Inv size can_encode opts boot (go_on_late fails c b s)
  unfolding go_on_late
  late-Inv fails c b n s own f free i =
      let h = (go_on fails c (b, s.hub)).2 in
      let (now, at_now, top, of) = go_on-late fails c b n s.hub f free in
      let here : entry s ≡ n =
        ap (λ (x : Text). node_of x s.hub) (sym own) ∙ node_of-at c.node_id n s.hub f in
      let there : node_of s.conn.node_id h ≡ now =
        ap (λ (x : Text). node_of x h) (sym own) ∙ node_of-at c.node_id now h at_now in
      changed-Inv size can_encode opts is_allowed boot h s
        (
          ap (λ (y : Node). y.highest_runner_seq) there
              ∙ (top ∙ ap (λ (y : Node). y.highest_runner_seq) (sym here)),
          ap (λ (y : Node). y.runner_boot_id) there
              ∙ (of ∙ ap (λ (y : Node). y.runner_boot_id) (sym here)),
        )
        i

  abbrev Rebound : Channel → Text → Hub → Type 0
  Rebound s of h =
      ((node_of s.conn.node_id h).highest_runner_seq ≡ highest s)
      × ((node_of s.conn.node_id h).runner_boot_id ≡ of)

  attached-Inv :
      (id n : ℕ) (h : Hub) (s : Channel)
      → Inv size can_encode opts boot s
      → Rebound s boot h
      → n ≡ highest s
      → Inv size can_encode opts boot (
          registered size can_encode opts is_allowed
            (new_connection size can_encode opts is_allowed id s)
            (accepted n, h)
            s)
  unfolding registered attach new_connection
  attached-Inv id n h s i (same, of) told =
      let seq = if text_eq h.boot_id s.client.backend_boot then s.client.last_backend_seq else 0 in
      let now : Client = record s.client { backend_boot = h.boot_id; last_backend_seq = seq } in
      let ok : IsQueue size can_encode opts now = record {
        counted = i.counted.counted;
        ordered = i.counted.ordered;
        bounded = i.counted.bounded;
      } in
      let (q, b, next) = trim-queue size can_encode opts n now ok in
      let e : (trim size can_encode opts n now).queue ≡ above (highest s) s.client.queue =
        q ∙ ap (λ (k : ℕ). above k s.client.queue) told in
      record {
        counted = attach-IsQueue size can_encode opts h.boot_id n s.client i.counted;
        balanced = rw (e, next, same) (Balanced-trim (highest s) (omega arith) i.balanced);
        flying = λ b. rw (e, next, same) (Flying-attach i.balanced);
        behind = omega arith;
        told = omega arith;
        acked = omega arith;
        process = inl of;
      }

  unanswered-Inv :
      (id n : ℕ) (h : Hub) (s : Channel)
      → Inv size can_encode opts boot s
      → Rebound s boot h
      → Inv size can_encode opts boot (
          unanswered size can_encode opts is_allowed
            (new_connection size can_encode opts is_allowed id s)
            (accepted n, h)
            s)
  unfolding unanswered new_connection
  unanswered-Inv id n h s i (same, of) = record {
    counted = i.counted;
    balanced = rw same i.balanced;
    flying = λ (b : false ≡ true). cc;
    behind = i.behind;
    told = omega arith;
    acked = omega arith;
    process = inl of;
  }

  -- What an accepted registration of the runner's own process leaves.
  registered-Rebound :
      (fails : Bool) (id : ℕ) (reg : Register) (s : Channel)
      → Inv size can_encode opts boot s
      → reg.runner_boot_id ≡ boot
      → let c = new_connection size can_encode opts is_allowed id s in
        let x = register_node is_allowed fails c reg s.hub in
        (n : ℕ) → x.0 ≡ accepted n → Rebound s boot x.1 × (n ≡ highest s)
  unfolding new_connection
  registered-Rebound fails id reg s i mine n e =
      let c = new_connection size can_encode opts is_allowed id s in
      let same : ((entry s).runner_boot_id ≡ reg.runner_boot_id) ⊎ (highest s ≡ 0) =
        (elim i.process [ inl x ↦ inl (x ∙ sym mine) | inr (z, _) ↦ inr z ]) in
      let (told, reached, of) = register_node-reach is_allowed fails c reg s.hub n e same in
      ((reached, of ∙ mine), told)

  pub reconnect-Inv :
      (fails : Bool) (id : ℕ) (reg : Register) (s : Channel)
      → Inv size can_encode opts boot s
      → reg.runner_boot_id ≡ boot
      → Inv size can_encode opts boot (reconnect size can_encode opts is_allowed fails id reg s)
  unfolding reconnect registered
  reconnect-Inv fails id reg s i mine =
      let c = new_connection size can_encode opts is_allowed id s in
      let x = register_node is_allowed fails c reg s.hub in
      answer x.0 x.1 (registered-Rebound fails id reg s i mine)
    where
      answer :
          (x : Registered) (h : Hub)
          → ((n : ℕ) → x ≡ accepted n → Rebound s boot h × (n ≡ highest s))
          → Inv size can_encode opts boot (
              registered size can_encode opts is_allowed
                (new_connection size can_encode opts is_allowed id s)
                (x, h)
                s)
      answer rejected h reaches = i
      answer (accepted n) h reaches =
          let (r, told) = reaches n refl in attached-Inv id n h s i r told

  pub reply_lost-Inv :
      (fails : Bool) (id : ℕ) (reg : Register) (s : Channel)
      → Inv size can_encode opts boot s
      → reg.runner_boot_id ≡ boot
      → Inv size can_encode opts boot (reply_lost size can_encode opts is_allowed fails id reg s)
  unfolding reply_lost unanswered
  reply_lost-Inv fails id reg s i mine =
      let c = new_connection size can_encode opts is_allowed id s in
      let x = register_node is_allowed fails c reg s.hub in
      answer x.0 x.1 (registered-Rebound fails id reg s i mine)
    where
      answer :
          (x : Registered) (h : Hub)
          → ((n : ℕ) → x ≡ accepted n → Rebound s boot h × (n ≡ highest s))
          → Inv size can_encode opts boot (
              unanswered size can_encode opts is_allowed
                (new_connection size can_encode opts is_allowed id s)
                (x, h)
                s)
      answer rejected h reaches = i
      answer (accepted n) h reaches = unanswered-Inv id n h s i (reaches n refl).0
