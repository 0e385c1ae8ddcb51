-- ===== src/Socket/Client/Reassembly/Read.antt =====
-- server/fcp-socket.c: what one read does to a message of which a part was read.
use mathlib.Core.List.{append_assoc}
use fcp_support.Base.{ℕ, ◌-◌, ◌≤◌, ◌<◌, List, ◌++◌, Bool, true, false, Bool-cases}
use fcp_support.Base.{length, take, drop, ltb, min, ◌==◌}
use fcp_support.Base.{
  ◌≡◌, refl, ap, ◌∙◌, ◌⊎◌, inl, inr, arith, ltb→lt, ltb_false→le, length-append, length-take,
  length-drop,
}
use fcp_support.Protocol.{read_header, header_size}
use fcp_support.Socket.{Service}
use fcp_support.Socket.Command.{Setup, handle_client_command}
use fcp_support.Socket.Client.{
  Server, Progress, waiting, data_read, read_bytes, initial_size, finished,
}
use fcp_support.Socket.Client.Reassembly.Parts.{
  IsMessage, IsSized, IsPartial, Outcome, final, final_size, taken-append-rest,
  complete_message-Outcome, check_header-Outcome,
}

module _ {D : Type 0} (env : Setup D) (beyond msg : List ℕ) (base : ℕ) (message : IsMessage msg)
    (roomy : initial_size ≤ base) where
  abbrev Sized : Server D → Type 0
  Sized = IsSized env beyond msg base message roomy

  abbrev Partial : Server D → Type 0
  Partial = IsPartial env beyond msg base message roomy

  abbrev Result : Server D → Progress × Server D → Type 0
  Result = Outcome env beyond msg base message roomy

  abbrev After : Service D → Bool → Server D
  After = final env beyond msg base message roomy

  -- Before the header is known, and after.
  abbrev Stage : Server D → Type 0
  Stage s =
      ((s.client.total_size ≡ 0) × (s.client.size ≡ base))
      ⊎ ((s.client.total_size ≡ length msg)
          × (s.client.size ≡ (final_size env beyond msg base message roomy))
          × (header_size ≤ length s.client.buffer))

  data_read-Outcome :
      (s : Server D)
      → s.client.buffer ++ s.stream ≡ msg
      → Stage s
      → Result s (data_read env beyond s)
  unfolding data_read
  data_read-Outcome s split (inl (total, size)) =
      let unsized : (s.client.total_size == 0) ≡ true = ground (arith, total) in
      elim (Bool-cases (ltb (length s.client.buffer) header_size)) [
        | inl short ↦ inl (
          s,
          rw short refl,
          record {
            split = split;
            unread = ground (
              arith,
              ap length split,
              length-append s.client.buffer s.stream,
              message.whole,
              short,
            );
            stage = inl (ltb→lt _ _ short, total, size);
          },
          refl,
          refl,
          refl,
        )
        | inr enough ↦
            rw (enough, unsized)
              (check_header-Outcome env beyond msg base message roomy s split
                (ltb_false→le _ _ enough) size)
      ]
  data_read-Outcome s split (inr (total, size, enough)) =
      let long : ltb (length s.client.buffer) header_size ≡ false = ground (arith, enough) in
      let known : (s.client.total_size == 0) ≡ false = ground (arith, total, message.whole) in
      rw (long, known)
        (complete_message-Outcome env beyond msg base message roomy s
          (record { split = split; has_header = enough; total = total; size = size }))

  -- A read of at least one byte takes at least one byte of the stream.
  pub read_bytes-Outcome :
      (n : ℕ) (s : Server D)
      → 0 < n
      → Partial s
      → ((t : Server D) × (read_bytes env beyond n s ≡ (waiting, t))
          × Partial t
          × (length t.stream < length s.stream)
          × (t.service ≡ s.service)
          × (t.client.connected ≡ s.client.connected))
        ⊎ (read_bytes env beyond n s
            ≡ finished env beyond
                (handle_client_command env (read_header msg) (msg ++ beyond) s.service)
                (After s.service s.client.connected))
  unfolding read_bytes
  read_bytes-Outcome n s pos h =
      let taken : 0 < length chunk = taken_pos room_pos in
      let some_taken : (length chunk == 0) ≡ false = ground arith in
      elim (data_read-Outcome s' split' (stage' h.stage)) [
        | inl (t, e, p, l, v, c) ↦ inl (
          t,
          rw some_taken e,
          p,
          omega (arith, length-drop (length chunk) s.stream, h.unread),
          v,
          c,
        )
        | inr e ↦ inr (rw some_taken e)
      ]
    where
      room : ℕ
      room = s.client.size - length s.client.buffer

      chunk : List ℕ
      chunk = take (min n room) s.stream

      s' : Server D
      s' = record s {
        client = record (s.client) { buffer = s.client.buffer ++ chunk };
        stream = drop (length chunk) s.stream;
      }

      room_of :
          ((length s.client.buffer < header_size)
              × (s.client.total_size ≡ 0)
              × (s.client.size ≡ base))
            ⊎ Sized s
          → 0 < room
      room_of (inl (short, _, size)) = omega (arith, roomy)
      room_of (inr k) = ground (
        arith,
        k.size,
        k.total,
        ap length h.split,
        length-append s.client.buffer s.stream,
        h.unread,
      )

      room_pos : 0 < room
      room_pos = room_of h.stage

      taken_pos : 0 < room → 0 < length chunk
      taken_pos r = omega (arith, length-take (min n room) s.stream, h.unread)

      split' : s'.client.buffer ++ s'.stream ≡ msg
      split' =
          append_assoc s.client.buffer chunk s'.stream
          ∙ ap (λ t. s.client.buffer ++ t) (taken-append-rest (min n room) s.stream)
          ∙ h.split

      stage' :
          ((length s.client.buffer < header_size)
              × (s.client.total_size ≡ 0)
              × (s.client.size ≡ base))
            ⊎ Sized s
          → Stage s'
      stage' (inl (_, total, size)) = inl (total, size)
      stage' (inr k) =
          inr (k.total, k.size, omega (arith, k.has_header, length-append s.client.buffer chunk))
