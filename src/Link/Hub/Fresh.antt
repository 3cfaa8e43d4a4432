-- ===== src/Link/Hub/Fresh.antt =====
-- What `handleUpstream` of backend/lib/runnerhub/connection.go leaves after a message that it has not had before,
-- and after an error.
use asgard.Prelude.{
  not, ◌&&◌, if◌then◌else◌, ℕ, ◌<◌, ◌≡◌, refl, ◌∙◌, Bool, true, false, inl, inr, Option, none, some,
  leb, ◌==◌, arith, Bool-cases, ap,
}
use asgard.Link.{RunnerMessage, RunResult, Payload, heartbeat, run_event, run_output, run_result}
use asgard.Link.Runs.{Run}
use asgard.Link.Hub.{
  Node, Connection, Hub, sequenced, UpstreamError, set_node, is_bound, find_run, result_for,
  apply_result, apply,
}
use asgard.Link.Hub.Handling.{
  Begun, returns, goes_on, begin_sequenced, begin_bound, begin_upstream, apply_new, acknowledge,
  applied, go_on, handle_upstream,
}
use asgard.Link.Hub.Binding.{node-set, Bound, apply-Bound}

-- The node has reached the seq, on the boot id that it had, and the connection will acknowledge it.
abbrev pub Reached : Connection → Node → ℕ → Connection → Hub → Type 0
Reached c old seq c' h =
    ((n : Node) × (h.nodes c.node_id ≡ some n)
      × (n.highest_runner_seq ≡ seq)
      × (n.runner_boot_id ≡ old.runner_boot_id))
    × (c'.ack_seq ≡ seq)
    × (c'.node_id ≡ c.node_id)

is_bound-conn : (c : Connection) (n n' : Node) → n'.conn ≡ n.conn → is_bound c n' ≡ is_bound c n
unfolding is_bound
is_bound-conn c n n' e = rw e refl

acknowledge-Reached :
    (c : Connection) (old : Node) (seq : ℕ) (n : Node) (h : Hub)
    → is_bound c n ≡ true
    → n.runner_boot_id ≡ old.runner_boot_id
    → Reached c old seq
        (acknowledge c false seq (some n) h).1
        (acknowledge c false seq (some n) h).2
unfolding acknowledge
acknowledge-Reached c old seq n h b r =
    rw (b, acknowledge)
      (
        (
          record n { highest_runner_seq = seq },
          node-set c.node_id (record n { highest_runner_seq = seq }) h,
          refl,
          r,
        ),
        refl,
        refl,
      )

applied-Reached :
    (c : Connection) (seq : ℕ) (n : Node) (x : Option UpstreamError) (h : Hub)
    → is_bound c n ≡ true
    → Bound c n h
    → (applied c false seq (x, h)).0 ≡ none
    → Reached c n seq (applied c false seq (x, h)).1 (applied c false seq (x, h)).2
unfolding applied
applied-Reached c seq n (some err) h b at_node e = cc
applied-Reached c seq n none h b (n1, f, g, r, k) e =
    rw (f, applied) (acknowledge-Reached c n seq n1 h (is_bound-conn c n n1 g ∙ b) r)

-- The node when a message of it has been read.
abbrev seen : Node → Hub → Node
seen n h = record n { last_seen = h.clock }

handled-new :
    (fails : Bool) (c : Connection) (m : RunnerMessage) (n : Node) (h : Hub)
    → h.nodes c.node_id ≡ some n
    → n.highest_runner_seq < m.seq
    → is_bound c n ≡ true
    → handle_upstream fails c (sequenced m) h
      ≡ applied c false m.seq (apply fails c (some m.payload) (set_node c.node_id (seen n h) h))
unfolding handle_upstream begin_upstream begin_bound begin_sequenced go_on apply_new
handled-new fails c m n h f l b =
    let z : (m.seq == 0) ≡ false = ground arith in
    let new : leb m.seq n.highest_runner_seq ≡ false = ground arith in
    rw (f, b, z, new, handle_upstream, begin_upstream) refl

handled-free :
    (fails : Bool) (c : Connection) (m : RunnerMessage) (n : Node) (h : Hub)
    → h.nodes c.node_id ≡ some n
    → is_bound c n ≡ false
    → handle_upstream fails c (sequenced m) h ≡ (some UpstreamError.superseded, c, h)
unfolding handle_upstream begin_upstream go_on
handled-free fails c m n h f b = rw (f, b, handle_upstream, begin_upstream) refl

pub handled-Reached :
    (fails : Bool) (c : Connection) (m : RunnerMessage) (n : Node) (h : Hub)
    → h.nodes c.node_id ≡ some n
    → n.highest_runner_seq < m.seq
    → (handle_upstream fails c (sequenced m) h).0 ≡ none
    → Reached c n m.seq
        (handle_upstream fails c (sequenced m) h).1
        (handle_upstream fails c (sequenced m) h).2
unfolding is_bound
handled-Reached fails c m n h f l e = elim (Bool-cases (is_bound c n)) [
  | inr free ↦ (let x = handled-free fails c m n h f free in cc)
  | inl b ↦
      let x = handled-new fails c m n h f l b in
      let now = set_node c.node_id (seen n h) h in
      let y = apply fails c (some m.payload) now in
      rw x (
        applied-Reached c m.seq (seen n h) y.0 y.1 b
          (apply-Bound fails c (some m.payload) (seen n h) now (node-set c.node_id (seen n h) h))
          (rw x at e))
]

result_for-error :
    (fails : Bool) (c : Connection) (res : RunResult) (r : Option Run) (h : Hub)
    (err : UpstreamError)
    → (result_for fails c res r h).0 ≡ some err
    → (result_for fails c res r h).1 ≡ h
unfolding result_for
result_for-error fails c res none h err e = ground arith
result_for-error fails c res (some r) h err e = ground arith

-- A message that cannot be applied leaves the hub as it was.
apply-error :
    (fails : Bool) (c : Connection) (p : Option Payload) (h : Hub) (err : UpstreamError)
    → (apply fails c p h).0 ≡ some err
    → (apply fails c p h).1 ≡ h
unfolding apply apply_result
apply-error fails c (some (heartbeat hb)) h err e = cc
apply-error fails c (some (run_event ev)) h err e = cc
apply-error fails c (some (run_output chunk)) h err e = cc
apply-error fails c (some (run_result res)) h err e =
    result_for-error fails c res (find_run res.ref.run_id h.runs) h err e
apply-error fails c none h err e = refl

acknowledge-none :
    (c : Connection) (dup : Bool) (seq : ℕ) (n : Option Node) (h : Hub)
    → (acknowledge c dup seq n h).0 ≡ none
unfolding acknowledge
acknowledge-none c dup seq none h = refl
acknowledge-none c dup seq (some n) h = refl

applied-error :
    (c : Connection) (seq : ℕ) (x : Option UpstreamError) (h : Hub) (err : UpstreamError)
    → (applied c false seq (x, h)).0 ≡ some err
    → (x ≡ some err) × ((applied c false seq (x, h)).1 ≡ c) × ((applied c false seq (x, h)).2 ≡ h)
unfolding applied
applied-error c seq (some e') h err e = (e, refl, refl)
applied-error c seq none h err e =
    (let n = acknowledge-none c false seq (h.nodes c.node_id) h in cc)

-- After an error of a new message the connection is as it was, and so is the hub, but for the time at which the
-- node was seen.
pub handled-error :
    (fails : Bool) (c : Connection) (m : RunnerMessage) (n : Node) (h : Hub) (err : UpstreamError)
    → h.nodes c.node_id ≡ some n
    → n.highest_runner_seq < m.seq
    → (handle_upstream fails c (sequenced m) h).0 ≡ some err
    → ((handle_upstream fails c (sequenced m) h).1 ≡ c)
      × ((now : Node) × ((handle_upstream fails c (sequenced m) h).2.nodes c.node_id ≡ some now)
          × (now.highest_runner_seq ≡ n.highest_runner_seq)
          × (now.runner_boot_id ≡ n.runner_boot_id))
handled-error fails c m n h err f l e = elim (Bool-cases (is_bound c n)) [
  | inr free ↦ (let x = handled-free fails c m n h f free in rw x (refl, (n, f, refl, refl)))
  | inl b ↦
      let x = handled-new fails c m n h f l b in
      let now = set_node c.node_id (seen n h) h in
      let y = apply fails c (some m.payload) now in
      let (a, same, hub) = applied-error c m.seq y.0 y.1 err (rw x at e) in
      let kept = hub ∙ apply-error fails c (some m.payload) now err a in
      rw x (
        same,
        (
          seen n h,
          ap (λ (g : Hub). g.nodes c.node_id) kept ∙ node-set c.node_id (seen n h) h,
          refl,
          refl,
        ),
      )
]

-- A message of a node that is not there is an error, which changes nothing.
pub handled-missing :
    (fails : Bool) (c : Connection) (m : RunnerMessage) (h : Hub)
    → h.nodes c.node_id ≡ none
    → handle_upstream fails c (sequenced m) h ≡ (some UpstreamError.superseded, c, h)
unfolding handle_upstream begin_upstream go_on
handled-missing fails c m h f = rw (f, handle_upstream) refl

applied-late :
    (c : Connection) (dup : Bool) (seq : ℕ) (n : Node) (x : Option UpstreamError) (h : Hub)
    → is_bound c n ≡ false
    → Bound c n h
    → (now : Node) × ((applied c dup seq (x, h)).2.nodes c.node_id ≡ some now)
      × (now.highest_runner_seq ≡ n.highest_runner_seq)
      × (now.runner_boot_id ≡ n.runner_boot_id)
unfolding applied acknowledge
applied-late c dup seq n (some err) h free (n1, f, g, r, k) = (n1, f, k, r)
applied-late c dup seq n none h free (n1, f, g, r, k) =
    let other : is_bound c n1 ≡ false = is_bound-conn c n n1 g ∙ free in
    let top : (if not dup && is_bound c n1 then seq else n1.highest_runner_seq)
        ≡ n1.highest_runner_seq =
      ground (arith, other) in
    (
      record n1 {
        highest_runner_seq = (if not dup && is_bound c n1 then seq else n1.highest_runner_seq);
      },
      rw (f, applied) (node-set c.node_id _ h),
      top ∙ k,
      r,
    )

-- The handler of a connection that the node is no longer bound to leaves the seq that was reached.
pub go_on-late :
    (fails : Bool) (c : Connection) (b : Begun) (n : Node) (h : Hub)
    → h.nodes c.node_id ≡ some n
    → is_bound c n ≡ false
    → (now : Node) × ((go_on fails c (b, h)).2.nodes c.node_id ≡ some now)
      × (now.highest_runner_seq ≡ n.highest_runner_seq)
      × (now.runner_boot_id ≡ n.runner_boot_id)
unfolding go_on apply_new
go_on-late fails c (returns e) n h f free = (n, f, refl, refl)
go_on-late fails c (goes_on true seq p) n h f free =
    applied-late c true seq n none h free (n, f, refl, refl, refl)
go_on-late fails c (goes_on false seq p) n h f free =
    let y = apply fails c p h in
    applied-late c false seq n y.0 y.1 free (apply-Bound fails c p n h f)
