-- ===== src/Socket/Client.antt =====
-- server/fcp-socket.c: the client's buffer (`struct client_state`), `process_client_data` and
-- `fcp_socket_handle_events`.
pub mod Reassembly
use fcp_support.Base.{
  ℕ, ◌+◌, ◌-◌, List, [], ◌∷◌, ◌++◌, Bool, true, false, not, ◌==◌, ◌&&◌, if◌then◌else◌,
}
use fcp_support.Base.{
  Option, none, some, length, take, drop, ltb, leb, ℤ, pos, negsuc, is_neg, eqb_ℤ, min,
}
use fcp_support.Base.State.{St, pure, ◌>>=◌, ◌>>◌}
use fcp_support.Protocol.{
  MsgHeader, Effect, drain_pending, error_message, read_header, header_size, magic_request,
  max_payload_length, err_invalid_magic, err_invalid_length,
}
use fcp_support.EspDfu.{World}
use fcp_support.EspDfu.Update.{emit}
use fcp_support.Socket.{Service, on_world}
use fcp_support.Socket.Command.{Setup, handle_client_command}

-- `struct client_state`. `buffer` is what was read into the buffer, so `bytes_read` is its length;
-- `size` is 0 while no buffer is allocated.
pub record Client : Type 0 where
  pub connected : Bool
  pub buffer : List ℕ
  pub size : ℕ
  pub total_size : ℕ

abbrev pub no_client : Client
no_client = record { connected = false; buffer = []; size = 0; total_size = 0 }

abbrev pub initial_size : ℕ
initial_size = 4096

-- The server's state, with the bytes that the client sent and the server did not read yet.
pub record Server (D : Type 0) : Type 0 where
  pub service : Service D
  pub client : Client
  pub stream : List ℕ

-- What `read` meets: nothing there (EAGAIN), an error, the end, or as many bytes of the stream.
pub data ReadEvent : Type 0 where
  again failed eof : ReadEvent
  got : ℕ → ReadEvent

-- What the socket descriptors report to the event loop.
pub record Ready : Type 0 where
  pub listening : Bool
  pub accepted : Bool
  pub nonblocking : Bool
  pub client_ready : Bool
  pub reading : ReadEvent

-- What `process_client_data` returns: -1, 0, 1. `running` is a command that has not returned.
pub data Progress : Type 0 where
  closed waiting complete running : Progress

module _ {D : Type 0} (env : Setup D) (beyond : List ℕ) where
  say : Effect → Server D → Server D
  unfolding on_world emit
  say e s = record s { service = (on_world (emit e) s.service).1 }

  unfoldable pub finished : Option (Unit {0}) × Service D → Server D → Progress × Server D
  finished (none, v) s = (running, record s { service = v })
  finished (some u, v) s = (
    complete,
    record s { service = v; client = record (s.client) { buffer = []; total_size = 0 } },
  )

  -- The last part: the message is carried out once it is complete. `beyond` is the memory after it.
  unfoldable pub complete_message : Server D → Progress × Server D
  unfolding finished
  complete_message s =
      let c = s.client in
      let done = handle_client_command env (read_header c.buffer) (c.buffer ++ beyond) s.service in
      if leb c.total_size (length c.buffer) then finished done s else (waiting, s)

  -- The header is there for the first time: the size is known, and is checked.
  unfoldable pub check_header : Server D → Progress × Server D
  unfolding say
  check_header s =
      let header = read_header s.client.buffer in
      let total = header_size + header.payload_length in
      let sized = record s { client = record (s.client) { total_size = total } } in
      if not (header.magic == magic_request)
      then (closed, say (error_message err_invalid_magic) sized)
      else if ltb max_payload_length header.payload_length
      then (closed, say (error_message err_invalid_length) sized)
      else if ltb s.client.size total
      then complete_message
          (record s { client = record (s.client) { total_size = total; size = total } })
      else complete_message sized

  -- What follows a read of some bytes.
  unfoldable pub data_read : Server D → Progress × Server D
  data_read s =
      if ltb (length s.client.buffer) header_size
      then (waiting, s)
      else if s.client.total_size == 0
      then check_header s
      else complete_message s

  -- The first read allocates the buffer.
  unfoldable pub allocate : Server D → Server D
  allocate s =
      if s.client.size == 0
      then record s { client = record (s.client) { size = initial_size } }
      else s

  -- `read` takes at most the room that is left. A read of no bytes is the end of the stream to C.
  unfoldable pub read_bytes : ℕ → Server D → Progress × Server D
  read_bytes n s =
      let chunk = take (min n (s.client.size - length s.client.buffer)) s.stream in
      let s' = record s {
        client = record (s.client) { buffer = s.client.buffer ++ chunk };
        stream = drop (length chunk) s.stream;
      } in
      if length chunk == 0 then (closed, s) else data_read s'

  read_event : ReadEvent → Server D → Progress × Server D
  read_event again s = (waiting, s)
  read_event failed s = (closed, s)
  read_event eof s = (closed, s)
  read_event (got n) s = read_bytes n s

  -- `process_client_data`
  unfoldable pub process_client_data : ReadEvent → Server D → Progress × Server D
  unfolding read_event allocate
  process_client_data e s = read_event e (allocate s)

  -- `cleanup_client`
  unfoldable pub cleanup_client : Server D → Server D
  cleanup_client s = record s { client = no_client }

  -- `fcp_socket_handle_events`, the accepting half; the listening socket is open. A new client's
  -- stream is `stream`.
  unfoldable pub accept_client : Ready → List ℕ → Server D → Server D
  unfolding say
  accept_client r stream s =
      if not r.listening
      then s
      else if s.client.connected
      then say drain_pending s
      else if r.accepted && r.nonblocking
      then record s { client = record (s.client) { connected = true }; stream = stream }
      else s

  after_read : Progress × Server D → Server D
  unfolding cleanup_client
  after_read (closed, s) = cleanup_client s
  after_read (waiting, s) = s
  after_read (complete, s) = s
  after_read (running, s) = s

  -- `fcp_socket_handle_events`
  unfoldable pub handle_events : Ready → List ℕ → Server D → Server D
  unfolding after_read
  handle_events r stream s =
      let s' = accept_client r stream s in
      let read = after_read (process_client_data r.reading s') in
      if s'.client.connected && r.client_ready then read else s'
