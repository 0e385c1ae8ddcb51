-- ===== src/Client/Messages/Decoded.antt =====
-- client/main.c against server/fcp-socket.c: a message of the server as the client reads it.
use fcp_support.Base.{
  ℕ, zero, suc, ◌+◌, ◌-◌, ◌%◌, ◌^◌, ◌≤◌, ◌<◌, min, List, [], ◌∷◌, ◌++◌, All, Bool, false, some,
}
use fcp_support.Base.{◌≡◌, refl, ap, ap₂, ◌∙◌, arith, length, take, drop, ◌==◌, if_false}
use fcp_support.Base.{le32, get_le32, get_le32-le32, length-take, length-drop, take-append-drop}
use fcp_support.Protocol.{read_header, header_size, magic_response, response_bytes}
use fcp_support.Client.{Connection, ReadEvent, again, failed, eof, got}
use fcp_support.Client.Messages.{
  full, read_loop, prepend, read_exact, switch_type, handle_server_message, message_header_read,
  keep_reads, payload_read,
}

-- A read that is to be repeated, or one that may take a byte.
abbrev pub IsGood : ReadEvent → Type 0
IsGood again = Unit {0}
IsGood failed = ⊥
IsGood eof = ⊥
IsGood (got n) = 0 < n

-- How many of the reads take bytes.
abbrev pub takes : List ReadEvent → ℕ
takes [] = 0
takes (again ∷ es) = takes es
takes (failed ∷ es) = takes es
takes (eof ∷ es) = takes es
takes (got n ∷ es) = suc (takes es)

-- The whole of `bytes` is read, and the reads that are left are still good for as much.
abbrev pub Reads : List ReadEvent → List ℕ → List ℕ → Type 0
Reads es bytes rest =
    (left : List ReadEvent) × ((read_loop es (length bytes) (bytes ++ rest)
        ≡ (full bytes, (rest, left)))
      × (All IsGood left × (takes es ≤ takes left + length bytes)))

read_loop-nothing :
    (es : List ReadEvent) (stream : List ℕ) → read_loop es 0 stream ≡ (full [], (stream, es))
unfolding read_loop
read_loop-nothing [] stream = refl
read_loop-nothing (again ∷ es) stream = refl
read_loop-nothing (failed ∷ es) stream = refl
read_loop-nothing (eof ∷ es) stream = refl
read_loop-nothing (got n ∷ es) stream = refl

take-append_le : (n : ℕ) (xs ys : List ℕ) → n ≤ length xs → take n (xs ++ ys) ≡ take n xs
take-append_le zero xs ys h = refl
take-append_le (suc n) [] ys h = absurd (omega arith)
take-append_le (suc n) (x ∷ xs) ys h = ap (λ t. x ∷ t) (take-append_le n xs ys (omega arith))

drop-append_le : (n : ℕ) (xs ys : List ℕ) → n ≤ length xs → drop n (xs ++ ys) ≡ drop n xs ++ ys
drop-append_le zero xs ys h = refl
drop-append_le (suc n) [] ys h = absurd (omega arith)
drop-append_le (suc n) (x ∷ xs) ys h = drop-append_le n xs ys (omega arith)

nonzero : (n : ℕ) → 0 < n → (n == 0) ≡ false
nonzero n h = ground (arith, h)

-- A read that takes some of the bytes, and then the rest.
got-Reads :
    (n : ℕ) (es : List ReadEvent) (bytes rest : List ℕ)
    → 0 < n
    → 0 < length bytes
    → Reads es (drop (min n (length bytes)) bytes) rest
    → Reads (got n ∷ es) bytes rest
unfolding read_loop
got-Reads n es bytes rest positive some_bytes (left, (eq, (good, enough))) = (
  left,
  (
    if_false (length bytes == 0) _ _ (nonzero (length bytes) some_bytes)
        ∙ if_false (length chunk == 0) _ _ (nonzero (length chunk) (omega (arith, size)))
        ∙ ap₂ (λ n t. prepend chunk (read_loop es n t)) to_go left_over
        ∙ ap (prepend chunk) eq
        ∙ ap (λ t. (full t, (rest, left))) whole,
    (good, omega (arith, enough, length-drop m bytes)),
  ),
)
  where
    m : ℕ
    m = min n (length bytes)

    chunk : List ℕ
    chunk = take m (bytes ++ rest)

    taken : chunk ≡ take m bytes
    taken = take-append_le m bytes rest (omega arith)

    size : length chunk ≡ m
    size = omega (arith, ap length taken, length-take m bytes)

    to_go : length bytes - length chunk ≡ length (drop m bytes)
    to_go = omega (arith, size, length-drop m bytes)

    left_over : drop (length chunk) (bytes ++ rest) ≡ drop m bytes ++ rest
    left_over = ap (λ k. drop k (bytes ++ rest)) size ∙ drop-append_le m bytes rest (omega arith)

    whole : chunk ++ drop m bytes ≡ bytes
    whole = ap (λ t. t ++ drop m bytes) taken ∙ take-append-drop m bytes

read_loop-Reads :
    (es : List ReadEvent) (bytes rest : List ℕ)
    → All IsGood es
    → length bytes ≤ takes es
    → Reads es bytes rest
unfolding read_loop
read_loop-Reads es [] rest good enough = (es, (read_loop-nothing es rest, (good, omega arith)))
read_loop-Reads [] (b ∷ bs) rest good enough = absurd (omega arith)
read_loop-Reads (again ∷ es) (b ∷ bs) rest (g, good) enough =
    let (left, (eq, r)) = read_loop-Reads es (b ∷ bs) rest good enough in
    (left, (if_false (suc (length bs) == 0) _ _ (nonzero (suc (length bs)) (omega arith)) ∙ eq, r))
read_loop-Reads (failed ∷ es) (b ∷ bs) rest (g, good) enough = absurd g
read_loop-Reads (eof ∷ es) (b ∷ bs) rest (g, good) enough = absurd g
read_loop-Reads (got n ∷ es) (b ∷ bs) rest (g, good) enough =
    got-Reads n es (b ∷ bs) rest g (omega arith) (
      read_loop-Reads es (drop (min n (suc (length bs))) (b ∷ bs)) rest good
        (omega (arith, enough, g, length-drop (min n (suc (length bs))) (b ∷ bs))))

-- However a message of the server, of a one-byte type and fewer than 2 ^ 32 bytes, is split into reads,
-- with repeated ones in between, as many as it has bytes: the client takes exactly the message off the
-- stream, and acts on its type and payload.
pub handle_server_message-response :
    (quiet : Bool) (t : ℕ) (payload rest : List ℕ) (c : Connection)
    → t < 256
    → length payload < 2 ^ 32
    → c.stream ≡ response_bytes t payload ++ rest
    → All IsGood c.reads
    → header_size + length payload ≤ takes c.reads
    → (left : List ReadEvent) × (handle_server_message quiet c ≡ (
        let (r, d) = switch_type quiet t payload (record c { stream = rest; reads = left }) in
        (some r, d)))
unfolding handle_server_message read_exact response_bytes read_header
handle_server_message-response quiet t payload rest c small short stream good enough =
    let (before, (read, (fine, more))) =
      read_loop-Reads c.reads header (payload ++ rest) good (omega (arith, enough)) in
    let (left, (read_rest, u)) =
      read_loop-Reads before payload rest fine (omega (arith, enough, more)) in
    let d = record c { stream = payload ++ rest; reads = before } in
    (
      left,
      ap (λ r. message_header_read quiet (keep_reads c r))
            (ap (λ s. read_loop c.reads header_size s) stream ∙ read)
          ∙ ap₂ (λ k n. payload_read quiet k (keep_reads d (read_loop before n (payload ++ rest))))
              same_type same_length
          ∙ ap (λ r. payload_read quiet t (keep_reads d r)) read_rest,
    )
  where
    header : List ℕ
    header = magic_response ∷ t % 256 ∷ le32 (length payload)

    same_type : t % 256 % 256 ≡ t
    same_type = omega (arith, small)

    same_length : get_le32 (le32 (length payload) ++ []) ≡ length payload
    same_length = get_le32-le32 (length payload) [] ∙ omega (arith, short)
