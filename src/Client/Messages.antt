-- ===== src/Client/Messages.antt =====
-- client/main.c: what the server sends, from the bytes of the socket on.
pub mod Decoded
pub mod Outcome
use fcp_support.Base.{
  ℕ, suc, ◌+◌, ◌-◌, ◌%◌, List, [], ◌∷◌, ◌++◌, Bool, true, false, not, Option, none, some,
}
use fcp_support.Base.{
  ℤ, pos, negsuc, is_neg, ltb_ℤ, to_signed, byte_at, get_le16, length, take, drop, min, ltb, leb,
  ◌==◌, if◌then◌else◌, ◌||◌,
}
use fcp_support.Protocol.{
  read_header, MsgHeader, magic_response, header_size, response_progress, response_error,
  response_success, response_data,
}
use fcp_support.Client.{
  Connection, Wait, ReadEvent, again, failed, eof, got, Turn, Selected, interrupted, broken,
  nothing, message, Shown, percent, error, success, invalid,
}

-- What `read_exact` comes to: the bytes, a code that is not positive, or no more reads to go by.
pub data ReadResult : Type 0 where
  full : List ℕ → ReadResult
  stopped : ℤ → ReadResult
  blocked : ReadResult

abbrev pub prepend :
    List ℕ → ReadResult × (List ℕ × List ReadEvent) → ReadResult × (List ℕ × List ReadEvent)
prepend xs (full ys, r) = (full (xs ++ ys), r)
prepend xs (stopped c, r) = (stopped c, r)
prepend xs (blocked, r) = (blocked, r)

-- The loop of `read_exact` over what `read` meets, with `count` bytes to go: what it comes to, the rest
-- of the stream and of the events. A read of nothing is the end.
unfoldable pub read_loop : List ReadEvent → ℕ → List ℕ → ReadResult × (List ℕ × List ReadEvent)
read_loop [] count stream = (if count == 0 then full [] else blocked, (stream, []))
read_loop (again ∷ es) count stream =
    let rest = read_loop es count stream in
    if count == 0 then (full [], (stream, again ∷ es)) else rest
read_loop (failed ∷ es) count stream =
    if count == 0 then (full [], (stream, failed ∷ es)) else (stopped (negsuc 0), (stream, es))
read_loop (eof ∷ es) count stream =
    if count == 0 then (full [], (stream, eof ∷ es)) else (stopped (pos 0), (stream, es))
read_loop (got n ∷ es) count stream =
    let chunk = take (min n count) stream in
    let rest = read_loop es (count - length chunk) (drop (length chunk) stream) in
    if count == 0
    then (full [], (stream, got n ∷ es))
    else if length chunk == 0
    then (stopped (pos 0), (stream, es))
    else prepend chunk rest

abbrev pub keep_reads : {A : Type 0} → Connection → A × (List ℕ × List ReadEvent) → A × Connection
keep_reads c (r, (s, es)) = (r, record c { stream = s; reads = es })

-- `read_exact`
unfoldable pub read_exact : ℕ → Connection → ReadResult × Connection
unfolding read_loop
read_exact count c = keep_reads c (read_loop c.reads count c.stream)

abbrev pub show : Shown → Connection → Connection
show s c = record c { shown = c.shown ++ s ∷ [] }

-- `show_progress`
unfoldable pub show_progress : ℕ → Connection → Connection
show_progress p c = show (percent p) (record c { showing_progress = true })

-- `handle_progress_message`
unfoldable pub handle_progress_message : List ℕ → Connection → Connection
unfolding show_progress
handle_progress_message payload c =
    if length payload == 1 then show_progress (byte_at payload 0 % 256) c else show invalid c

-- FCP_SOCKET_ERR_MAX
abbrev pub err_max : ℤ
err_max = pos 13

-- `handle_error_message`, with the message's code in place of its text
unfoldable pub handle_error_message : List ℕ → Connection → Connection
handle_error_message payload c =
    let code = to_signed 16 (get_le16 payload) in
    if not (length payload == 2)
    then show invalid c
    else if is_neg code || ltb_ℤ err_max code
    then show invalid c
    else show (error code) c

-- `handle_success_message`
unfoldable pub handle_success_message : Connection → Connection
unfolding show_progress
handle_success_message c =
    if c.showing_progress
    then record (show_progress 100 c) { showing_progress = false }
    else show success c

-- The `switch` over the type of the message: what is returned, and the connection.
unfoldable pub switch_type : Bool → ℕ → List ℕ → Connection → ℤ × Connection
unfolding handle_progress_message handle_error_message handle_success_message
switch_type quiet t payload c =
    if t == response_progress
    then (pos 1, handle_progress_message payload c)
    else if t == response_error
    then (negsuc 0, handle_error_message payload c)
    else if t == response_success
    then (pos 0, if quiet then c else handle_success_message c)
    else if t == response_data
    then (pos 0, record c { data_response = some payload })
    else (negsuc 0, c)

abbrev pub payload_read : Bool → ℕ → ReadResult × Connection → Option ℤ × Connection
payload_read quiet t (full payload, c) = let (r, d) = switch_type quiet t payload c in (some r, d)
payload_read quiet t (stopped r, c) = (some r, c)
payload_read quiet t (blocked, c) = (none, c)

-- What follows the header.
abbrev pub message_header_read : Bool → ReadResult × Connection → Option ℤ × Connection
message_header_read quiet (full bytes, c) =
    if not ((read_header bytes).magic == magic_response)
    then (some (negsuc 0), c)
    else payload_read quiet (read_header bytes).msg_type
        (read_exact (read_header bytes).payload_length c)
message_header_read quiet (stopped r, c) = (some r, c)
message_header_read quiet (blocked, c) = (none, c)

-- `handle_server_message`; `none` waits for bytes that do not come. A payload that does not fit into
-- memory is not modelled.
unfoldable pub handle_server_message : Bool → Connection → Option ℤ × Connection
unfolding read_exact switch_type
handle_server_message quiet c = message_header_read quiet (read_exact header_size c)

-- `TIMEOUT_SECS`
abbrev pub timeout_secs : ℕ
timeout_secs = 15

-- Return, or go on after a progress message.
abbrev pub respond_or :
    (Connection → Option ℤ × Connection) → Option ℤ × Connection → Option ℤ × Connection
respond_or next (none, c) = (none, c)
respond_or next (some r, c) = if ltb_ℤ (pos 0) r then next c else (some r, c)

abbrev pub turn_selected :
    Bool
    → Selected
    → (Connection → Option ℤ × Connection)
    → (Connection → Option ℤ × Connection)
    → Connection
    → Option ℤ × Connection
turn_selected quiet interrupted go_on progressed c = go_on c
turn_selected quiet broken go_on progressed c = (some (negsuc 0), c)
turn_selected quiet nothing go_on progressed c = go_on c
turn_selected quiet message go_on progressed c =
    respond_or progressed (handle_server_message quiet c)

-- The `while` loop of `handle_server_responses` over the turns, from the time of the last progress on;
-- `none` is a wait that goes on.
unfoldable pub respond_loop : Bool → List Turn → ℕ → Connection → Option ℤ × Connection
unfolding handle_server_message
respond_loop quiet [] last c = (none, c)
respond_loop quiet (t ∷ ts) last c =
    if leb timeout_secs (t.now - last)
    then (some (negsuc 0), c)
    else turn_selected quiet t.selected (respond_loop quiet ts last) (respond_loop quiet ts t.after)
        c

abbrev pub next_wait : Bool → List Wait → Connection → Option ℤ × Connection
next_wait quiet [] c = (none, c)
next_wait quiet (w ∷ ws) c = respond_loop quiet w.turns w.start (record c { waits = ws })

-- `handle_server_responses`
unfoldable pub handle_server_responses : Bool → Connection → Option ℤ × Connection
unfolding respond_loop
handle_server_responses quiet c = next_wait quiet c.waits c
