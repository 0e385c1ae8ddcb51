-- ===== src/Socket/Client/Reassembly/Parts.antt =====
-- server/fcp-socket.c: a message of which a part was read, and the steps that may complete it.
use mathlib.Core.List.{append-nil}
use fcp_support.Base.{ℕ, zero, suc, ◌+◌, ◌≤◌, ◌<◌, List, [], ◌∷◌, ◌++◌, Bool, false, Bool-cases}
use fcp_support.Base.{length, take, drop, ltb, leb, ◌==◌, not, if◌then◌else◌}
use fcp_support.Base.{◌≡◌, refl, sym, ap, ap₂, ◌∙◌, ◌⊎◌, inl, inr, arith, tests, length-append}
use fcp_support.Protocol.{read_header, header_size, magic_request, max_payload_length}
use fcp_support.Socket.{Service}
use fcp_support.Socket.Command.{Setup, handle_client_command}
use fcp_support.Socket.Client.{
  Server, Progress, waiting, complete_message, check_header, initial_size, finished,
}

-- A whole request: its header is valid, and its payload has the length that the header says.
pub record IsMessage (msg : List ℕ) : Type 0 where
  pub magic : (read_header msg).magic ≡ magic_request
  pub small : (read_header msg).payload_length ≤ max_payload_length
  pub whole : length msg ≡ header_size + (read_header msg).payload_length

-- The header is in the first six bytes.
read_header-append :
    (xs ys : List ℕ) → header_size ≤ length xs → read_header (xs ++ ys) ≡ read_header xs
unfolding read_header
read_header-append (a ∷ b ∷ c ∷ d ∷ e ∷ f ∷ xs) ys h = refl
read_header-append [] ys h = absurd (omega arith)
read_header-append (a ∷ []) ys h = absurd (omega arith)
read_header-append (a ∷ b ∷ []) ys h = absurd (omega arith)
read_header-append (a ∷ b ∷ c ∷ []) ys h = absurd (omega arith)
read_header-append (a ∷ b ∷ c ∷ d ∷ []) ys h = absurd (omega arith)
read_header-append (a ∷ b ∷ c ∷ d ∷ e ∷ []) ys h = absurd (omega arith)

pub taken-append-rest {ℓ} :
    {A : Type ℓ} (n : ℕ) (xs : List A) → take n xs ++ drop (length (take n xs)) xs ≡ xs
taken-append-rest zero xs = refl
taken-append-rest (suc n) [] = refl
taken-append-rest (suc n) (x ∷ xs) = ap (λ t. x ∷ t) (taken-append-rest n xs)

append_whole :
    (xs ys msg : List ℕ) → xs ++ ys ≡ msg → length msg ≤ length xs → (xs ≡ msg) × (ys ≡ [])
append_whole xs [] msg e h = (sym (append-nil xs) ∙ e, refl)
append_whole xs (y ∷ ys) msg e h = absurd (omega (arith, ap length e, length-append xs (y ∷ ys)))

module _ {D : Type 0} (env : Setup D) (beyond msg : List ℕ) (base : ℕ) (message : IsMessage msg)
    (roomy : initial_size ≤ base) where
  -- The size of the buffer once the header is known.
  abbrev pub final_size : ℕ
  final_size = if ltb base (length msg) then length msg else base

  -- The server as the command is carried out.
  abbrev pub final : Service D → Bool → Server D
  final v connected = record {
    service = v;
    client = record {
      connected = connected;
      buffer = msg;
      size = final_size;
      total_size = length msg;
    };
    stream = [];
  }

  pub record IsSized (s : Server D) : Type 0 where
    pub split : s.client.buffer ++ s.stream ≡ msg
    pub has_header : header_size ≤ length s.client.buffer
    pub total : s.client.total_size ≡ length msg
    pub size : s.client.size ≡ final_size

  -- Part of the message was read, and part of it is still to come.
  pub record IsPartial (s : Server D) : Type 0 where
    pub split : s.client.buffer ++ s.stream ≡ msg
    pub unread : 0 < length s.stream
    pub stage :
        ((length s.client.buffer < header_size)
          × (s.client.total_size ≡ 0)
          × (s.client.size ≡ base))
        ⊎ IsSized s

  -- What a step may come to: more to wait for, with nothing of the stream lost, or the command.
  abbrev pub Outcome : Server D → Progress × Server D → Type 0
  Outcome s r =
      ((t : Server D) × (r ≡ (waiting, t))
        × IsPartial t
        × (length t.stream ≡ length s.stream)
        × (t.service ≡ s.service)
        × (t.client.connected ≡ s.client.connected))
      ⊎ (r
          ≡ finished env beyond
              (handle_client_command env (read_header msg) (msg ++ beyond) s.service)
              (final s.service s.client.connected))

  pub complete_message-Outcome :
      (s : Server D) → IsSized s → Outcome s (complete_message env beyond s)
  unfolding complete_message
  complete_message-Outcome s h =
      elim (Bool-cases (leb s.client.total_size (length s.client.buffer))) [
        | inl done ↦
            let (b, n) =
              append_whole s.client.buffer s.stream msg h.split (omega (tests, h.total)) in
            let at_end : s ≡ final s.service s.client.connected = λ i. record {
              service = s.service;
              client = record {
                connected = s.client.connected;
                buffer = b i;
                size = h.size i;
                total_size = h.total i;
              };
              stream = n i;
            } in
            inr (
              rw done (
                ap₂
                  (λ m t.
                    finished env beyond
                      (handle_client_command env (read_header m) (m ++ beyond) s.service) t)
                  b at_end))
        | inr more ↦ inl (
          s,
          rw more refl,
          record {
            split = h.split;
            unread =
                ground
                  (arith, ap length h.split, length-append s.client.buffer s.stream, h.total, more);
            stage = inr h;
          },
          refl,
          refl,
          refl,
        )
      ]

  pub check_header-Outcome :
      (s : Server D)
      → s.client.buffer ++ s.stream ≡ msg
      → header_size ≤ length s.client.buffer
      → s.client.size ≡ base
      → Outcome s (check_header env beyond s)
  unfolding check_header
  check_header-Outcome s split enough size =
      let header : read_header s.client.buffer ≡ read_header msg =
        sym (read_header-append s.client.buffer s.stream enough) ∙ ap read_header split in
      let total : header_size + (read_header s.client.buffer).payload_length ≡ length msg =
        ap (λ h. header_size + h.payload_length) header ∙ sym message.whole in
      let good : not ((read_header s.client.buffer).magic == magic_request) ≡ false =
        rw (header, message.magic) refl in
      let fits : ltb max_payload_length (read_header s.client.buffer).payload_length ≡ false =
        rw header (ground (arith, message.small)) in
      elim (Bool-cases
        (ltb s.client.size (header_size + (read_header s.client.buffer).payload_length))) [
          | inl grow ↦
              rw (good, fits, grow)
                (complete_message-Outcome _ (record {
                  split = split;
                  has_header = enough;
                  total = total;
                  size = ground (arith, total, size, grow);
                }))
          | inr keep ↦
              rw (good, fits, keep)
                (complete_message-Outcome _ (record {
                  split = split;
                  has_header = enough;
                  total = total;
                  size = ground (arith, total, size, keep);
                }))
        ]
