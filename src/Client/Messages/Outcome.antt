-- ===== src/Client/Messages/Outcome.antt =====
-- client/main.c: what the client makes of an error of the server, and of a connection that ends.
use fcp_support.Base.{
  ℕ, ◌-◌, ◌%◌, ◌^◌, ◌≤◌, ◌<◌, min, List, [], ◌∷◌, ◌++◌, All, Bool, false, Bool-cases, Option, some,
}
use fcp_support.Base.{
  ℤ, pos, negsuc, ◌≡◌, refl, ap, ◌∙◌, inl, inr, arith, length, take, drop, ◌==◌, if_true, if_false,
}
use fcp_support.Base.{
  to_signed, to_unsigned, get_le16, le16, ltb_ℤ, length-take, length-drop, get_le16-le16,
}
use fcp_support.Protocol.{header_size, error_message, effect_bytes, response_error}
use fcp_support.Client.{Connection, ReadEvent, again, failed, eof, got, error}
use fcp_support.Client.Messages.{
  ReadResult, stopped, full, blocked, read_loop, prepend, read_exact, handle_error_message,
  switch_type, handle_server_message, message_header_read, keep_reads, err_max,
}
use fcp_support.Client.Messages.Decoded.{IsGood, takes, handle_server_message-response}

abbrev result_of : ReadResult × (List ℕ × List ReadEvent) → ReadResult
result_of r = r.0

abbrev returned : ℤ × Connection → Option ℤ × Connection
returned r = (some (r.0), r.1)

shown_code : (n : ℕ) → n ≤ 13 → to_signed 16 (get_le16 (le16 (to_unsigned 16 (pos n)))) ≡ pos n
shown_code n h = ap (to_signed 16) plain ∙ ground (arith, h)
  where
    plain : get_le16 (le16 (n % 2 ^ 16)) ≡ n
    plain = get_le16-le16 (n % 2 ^ 16) [] ∙ omega (arith, h)

-- The client shows an error of the server, of a code up to FCP_SOCKET_ERR_MAX, as the same error, takes
-- exactly its message off the stream and returns -1, however the message is split into reads.
pub handle_server_message-error :
    (quiet : Bool) (n : ℕ) (rest : List ℕ) (c : Connection)
    → n ≤ 13
    → c.stream ≡ effect_bytes (error_message (pos n)) ++ rest
    → All IsGood c.reads
    → 8 ≤ takes c.reads
    → (left : List ReadEvent) × (handle_server_message quiet c ≡ (
      some (negsuc 0),
      record c { stream = rest; reads = left; shown = c.shown ++ error (pos n) ∷ [] },
    ))
unfolding error_message effect_bytes switch_type handle_error_message
handle_server_message-error quiet n rest c known stream good enough =
    let (left, e) =
      handle_server_message-response quiet response_error (le16 (to_unsigned 16 (pos n))) rest c
        (omega arith) (omega arith) stream good enough in
    (left, e ∙ said (record c { stream = rest; reads = left }))
  where
    in_range : ltb_ℤ err_max (pos n) ≡ false
    in_range = ground (arith, known)

    said :
        (d : Connection)
        → returned (switch_type quiet response_error (le16 (to_unsigned 16 (pos n))) d)
          ≡ (some (negsuc 0), record d { shown = d.shown ++ error (pos n) ∷ [] })
    said d = rw (shown_code n known, in_range) refl

prepend-stopped :
    (xs : List ℕ) (r : ReadResult × (List ℕ × List ReadEvent)) (z : ℤ)
    → r.0 ≡ stopped z
    → (prepend xs r).0 ≡ stopped z
prepend-stopped xs (full ys, s) z e = absurd cc
prepend-stopped xs (stopped y, s) z e = e
prepend-stopped xs (blocked, s) z e = absurd cc

is_nonzero : (n : ℕ) → 0 < n → (n == 0) ≡ false
is_nonzero n h = ground (arith, h)

-- A stream that ends too early.
read_loop-short :
    (es more : List ReadEvent) (count : ℕ) (stream : List ℕ)
    → All IsGood es
    → length stream < count
    → (read_loop (es ++ eof ∷ more) count stream).0 ≡ stopped (pos 0)
unfolding read_loop
read_loop-short [] more count stream good h =
    ap result_of (if_false (count == 0) _ _ (is_nonzero count (omega arith)))
read_loop-short (again ∷ es) more count stream (g, good) h =
    ap result_of (if_false (count == 0) _ _ (is_nonzero count (omega arith)))
    ∙ read_loop-short es more count stream good h
read_loop-short (failed ∷ es) more count stream (g, good) h = absurd g
read_loop-short (eof ∷ es) more count stream (g, good) h = absurd g
read_loop-short (got n ∷ es) more count stream (g, good) h =
    ap result_of (if_false (count == 0) _ _ (is_nonzero count (omega arith)))
    ∙ elim (Bool-cases (length (take (min n count) stream) == 0)) [
      | inl none_left ↦
          ap result_of (if_true (length (take (min n count) stream) == 0) _ _ none_left)
      | inr some_left ↦
          ap result_of (if_false (length (take (min n count) stream) == 0) _ _ some_left)
          ∙ prepend-stopped (take (min n count) stream) _ (pos 0) (
              read_loop-short es more (count - length (take (min n count) stream))
                (drop (length (take (min n count) stream)) stream) good
                (omega (
                  arith,
                  length-drop (length (take (min n count) stream)) stream,
                  length-take (min n count) stream,
                  h,
                )))
    ]

-- When the server closes the connection before a whole header has come, with fewer than six bytes on
-- the stream, the client's handler returns 0, its code for success.
pub handle_server_message-cut_off :
    (quiet : Bool) (es more : List ReadEvent) (c : Connection)
    → c.reads ≡ es ++ eof ∷ more
    → All IsGood es
    → length c.stream < header_size
    → (handle_server_message quiet c).0 ≡ some (pos 0)
unfolding handle_server_message read_exact
handle_server_message-cut_off quiet es more c reads good short =
    stops (keep_reads c (read_loop c.reads header_size c.stream)) (
      ap (λ r. (read_loop r header_size c.stream).0) reads
      ∙ read_loop-short es more header_size c.stream good short)
  where
    stops :
        (r : ReadResult × Connection)
        → r.0 ≡ stopped (pos 0)
        → (message_header_read quiet r).0 ≡ some (pos 0)
    stops (full bytes, d) e = absurd cc
    stops (stopped z, d) e = cc e
    stops (blocked, d) e = absurd cc
