-- ===== src/Socket/Client/Reassembly.antt =====
-- server/fcp-socket.c: `process_client_data` over a message that arrives in pieces.
pub mod Parts
pub mod Read
use mathlib.Core.List.{append_assoc, append-nil}
use fcp_support.Base.{
  ℕ, zero, suc, ◌+◌, ◌-◌, ◌≤◌, ◌<◌, List, [], ◌∷◌, ◌++◌, Bool, true, false, Bool-cases, All,
}
use fcp_support.Base.{
  Option, none, some, length, take, drop, ltb, leb, min, ◌==◌, not, if◌then◌else◌,
}
use fcp_support.Base.{
  ◌≡◌, refl, sym, ap, ap₂, ◌∙◌, ◌⊎◌, inl, inr, arith, tests, ltb→lt, ltb_false→le, length-append,
  length-take, length-drop,
}
use fcp_support.Protocol.{read_header, header_size, magic_request, max_payload_length}
use fcp_support.Socket.{Service}
use fcp_support.Socket.Command.{Setup, handle_client_command}
use fcp_support.Socket.Client.{
  Server, got, Progress, waiting, closed, complete, running, complete_message, check_header,
  data_read, allocate, read_bytes, process_client_data, initial_size, finished, read_event,
}
use fcp_support.Socket.Client.Reassembly.Parts.{IsMessage, IsSized, IsPartial, final, final_size}
use fcp_support.Socket.Client.Reassembly.Read.{read_bytes-Outcome}

-- Go on after a step that waits for more.
abbrev resume :
    {D : Type 0} → (Server D → Progress × Server D) → Progress × Server D → Progress × Server D
resume k (waiting, t) = k t
resume k (closed, t) = (closed, t)
resume k (complete, t) = (complete, t)
resume k (running, t) = (running, t)

-- The reads of the event loop, of up to so many bytes each, until one of them completes a message or
-- closes the connection.
pub receive : {D : Type 0} → Setup D → List ℕ → List ℕ → Server D → Progress × Server D
receive env beyond [] s = (waiting, s)
receive env beyond (n ∷ ns) s =
    resume (receive env beyond ns) (process_client_data env beyond (got n) s)

module _ {D : Type 0} (env : Setup D) (beyond msg : List ℕ) (base : ℕ) (message : IsMessage msg)
    (roomy : initial_size ≤ base) where
  abbrev Sized : Server D → Type 0
  Sized = IsSized env beyond msg base message roomy

  abbrev Partial : Server D → Type 0
  Partial = IsPartial env beyond msg base message roomy

  abbrev After : Service D → Bool → Server D
  After = final env beyond msg base message roomy

  resume-finished :
      (k : Server D → Progress × Server D) (r : Option (Unit {0}) × Service D) (s : Server D)
      → resume k (finished env beyond r s) ≡ finished env beyond r s
  unfolding finished
  resume-finished k (none, v) s = refl
  resume-finished k (some u, v) s = refl

  allocate-IsPartial : (s : Server D) → Partial s → allocate env beyond s ≡ s
  unfolding allocate
  allocate-IsPartial s h = rw (sized h.stage)
    where
      sized :
          ((length s.client.buffer < header_size)
              × (s.client.total_size ≡ 0)
              × (s.client.size ≡ base))
            ⊎ Sized s
          → (s.client.size == 0) ≡ false
      sized (inl (_, _, e)) = ground (arith, e, roomy)
      sized (inr k) = ground (arith, k.size, roomy)

  receive-IsPartial :
      (ns : List ℕ) (s : Server D)
      → Partial s
      → All (λ n. 0 < n) ns
      → length s.stream ≤ length ns
      → receive env beyond ns s
        ≡ finished env beyond
            (handle_client_command env (read_header msg) (msg ++ beyond) s.service)
            (After s.service s.client.connected)
  unfolding receive process_client_data
  receive-IsPartial [] s h all long = absurd (omega (arith, h.unread))
  receive-IsPartial (n ∷ ns) s h (pos, all) long =
      rw (allocate-IsPartial s h)
        (elim (read_bytes-Outcome env beyond msg base message roomy n s pos h) [
          | inr e ↦ rw e (resume-finished _ _ _)
          | inl (t, e, p, l, v, c) ↦ rw e (
              receive-IsPartial ns t p all (omega arith)
              ∙ ap₂
                  (λ v' c'.
                    finished env beyond
                      (handle_client_command env (read_header msg) (msg ++ beyond) v')
                      (After v' c'))
                  v c)
        ])

-- The client between two messages: nothing of a message was read, and the buffer is not allocated or
-- has at least its first size.
pub record IsIdle {D : Type 0} (s : Server D) : Type 0 where
  pub empty : s.client.buffer ≡ []
  pub no_total : s.client.total_size ≡ 0
  pub sized : (s.client.size ≡ 0) ⊎ (initial_size ≤ s.client.size)

abbrev pub buffer_size : {D : Type 0} → Server D → ℕ
buffer_size s = if s.client.size == 0 then initial_size else s.client.size

module _ {D : Type 0} (env : Setup D) (beyond : List ℕ) where
  allocated : Server D → Server D
  allocated s = record s { client = record (s.client) { size = buffer_size s } }

  allocate-allocated : (s : Server D) → allocate env beyond s ≡ allocated s
  unfolding allocate allocated
  allocate-allocated s = elim (Bool-cases (s.client.size == 0)) [ inl e ↦ rw e | inr e ↦ rw e ]

  roomy_of :
      (s : Server D)
      → (s.client.size ≡ 0) ⊎ (initial_size ≤ s.client.size)
      → initial_size ≤ buffer_size s
  roomy_of s (inl e) = rw e (omega arith)
  roomy_of s (inr h) = ground arith

  allocated-IsPartial :
      (s : Server D) (idle : IsIdle s) (message : IsMessage s.stream)
      → IsPartial env beyond s.stream (buffer_size s) message (roomy_of s idle.sized) (allocated s)
  unfolding allocated
  allocated-IsPartial s idle message = record {
    split = ap (λ b. b ++ s.stream) idle.empty;
    unread = omega (arith, message.whole);
    stage = inl (omega (arith, ap length idle.empty), idle.no_total, refl);
  }

  -- For an idle server and a stream that is exactly one valid request: however its bytes are split into
  -- reads, the server carries the request out once, after its last byte and on exactly its bytes, and is
  -- left as that command leaves it. `ns` is how many bytes each read may take, all positive and as many
  -- reads as bytes.
  pub receive-message :
      (s : Server D) (ns : List ℕ)
      → IsIdle s
      → IsMessage s.stream
      → All (λ n. 0 < n) ns
      → length s.stream ≤ length ns
      → receive env beyond ns s
        ≡ finished env beyond
            (handle_client_command env (read_header s.stream) (s.stream ++ beyond) s.service)
            (record {
              service = s.service;
              client = record {
                connected = s.client.connected;
                buffer = s.stream;
                size =
                    if ltb (buffer_size s) (length s.stream)
                    then length s.stream
                    else buffer_size s;
                total_size = length s.stream;
              };
              stream = [];
            })
  unfolding receive process_client_data allocated
  receive-message s [] idle message all long = absurd (omega (arith, message.whole))
  receive-message s (n ∷ ns) idle message all long =
      let r = roomy_of s idle.sized in
      let partial = allocated-IsPartial s idle message in
      let step : allocate env beyond s ≡ allocate env beyond (allocated s) =
        allocate-allocated s
        ∙ sym (
            allocate-IsPartial env beyond s.stream (buffer_size s) message r (allocated s)
              partial) in
      ap (λ t. resume (receive env beyond ns) (read_event env beyond (got n) t)) step
      ∙ receive-IsPartial env beyond s.stream (buffer_size s) message r (n ∷ ns) (allocated s)
          partial all long
