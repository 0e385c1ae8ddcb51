-- ===== src/Client/Data/Served.antt =====
-- client/main.c against server/fcp-socket.c: a raw command, from the client's request to the driver.
use fcp_support.Base.{
  ℕ, ◌+◌, ◌-◌, ◌%◌, ◌^◌, ◌≤◌, ◌<◌, List, [], ◌∷◌, ◌++◌, Option, some, Res, ok, err, true, not, ℤ,
  if_false,
}
use fcp_support.Base.{
  ◌≡◌, refl, ap, ap₂, ◌∙◌, arith, le32, get_le32, length, take, drop, take-append, get_le32-le32,
}
use fcp_support.Protocol.{
  read_header, magic_request, max_payload_length, header_size, request_fcp_cmd, response_data,
  Effect, respond, error_message, err_fcp, err_debug_disabled,
}
use fcp_support.Base.State.{St, pure, ◌>>=◌}
use fcp_support.Base.{continue, pure as pure_d}
use fcp_support.Fcp.Effects.{fcp_cmd_small}
use fcp_support.Fcp.{fcp_cmd}
use fcp_support.EspDfu.{World, on_device}
use fcp_support.EspDfu.Update.{emit}
use fcp_support.Socket.{Service, on_world}
use fcp_support.Socket.Command.{
  Setup, handle_client_command, handle_fcp_cmd, cmd_answered, answer_cmd, answer,
}
use fcp_support.Client.{Connection}
use fcp_support.Client.Messages.{handle_server_responses}
use fcp_support.Client.Send.{request_header, send_fcp_cmd, put, put_some}

-- The bytes of the request.
unfoldable pub fcp_request : ℕ → List ℕ → ℕ → List ℕ
fcp_request opcode req_data resp_size =
    request_header request_fcp_cmd (8 + length req_data)
    ++ le32 opcode
    ++ le32 resp_size
    ++ req_data

-- What the server answers.
abbrev pub reply : Res (List ℕ) → Effect
reply (ok resp) = respond response_data resp
reply (err e) = error_message err_fcp

module _ {D : Type 0} (env : Setup D) (beyond : List ℕ) (opcode resp_size : ℕ) (req_data : List ℕ)
    (small : 8 + length req_data ≤ max_payload_length) where
  abbrev request : List ℕ
  request = fcp_request opcode req_data resp_size

  -- `answer_cmd`, from what the command came to on.
  abbrev answered : Service D → ℤ × World D → Option (Unit {0}) × Service D
  answered v (ret, w) = answer_cmd env ret (record v { world = w })

  header_read : read_header request ≡ record {
    magic = magic_request;
    msg_type = request_fcp_cmd;
    payload_length = 8 + length req_data;
  }
  unfolding fcp_request read_header
  header_read = λ i. record {
    magic = magic_request;
    msg_type = request_fcp_cmd;
    payload_length = (get_le32-le32 (8 + length req_data) [] ∙ fits) i;
  }
    where
      fits : (8 + length req_data) % 2 ^ 32 ≡ 8 + length req_data
      fits = omega (arith, small)

  -- The command's end, from what the driver gave on.
  replied :
      (v : Service D) (r : Res (List ℕ)) (d : D)
      → answered v (cmd_answered env resp_size r (record (v.world) { dev = d })) ≡ (
        some tt,
        record v { world = record (v.world) { dev = d; log = v.world.log ++ reply r ∷ [] } },
      )
  unfolding cmd_answered answer_cmd answer on_world emit
  replied v (ok resp) d = refl
  replied v (err e) d = refl

  driven :
      (v : Service D)
      → env.fcp_debug ≡ true
      → opcode < 2 ^ 32
      → resp_size < 2 ^ 32
      → handle_fcp_cmd env
          (record {
            magic = magic_request;
            msg_type = request_fcp_cmd;
            payload_length = 8 + length req_data;
          })
          (drop header_size (request ++ beyond))
          v.world
        ≡ (let (r, d) = fcp_cmd env.ioctl opcode req_data resp_size v.world.dev in
            cmd_answered env resp_size r (record (v.world) { dev = d }))
  unfolding handle_fcp_cmd on_device fcp_request
  driven v debug code size =
      ap (λ (m : St (World D) ℤ). m v.world)
        (if_false (not env.fcp_debug) (pure err_debug_disabled)
          (on_device (
              fcp_cmd env.ioctl (get_le32 (le32 opcode))
                (take ((8 + length req_data + 2 ^ 64 - 8) % 2 ^ 64) (req_data ++ beyond))
                (get_le32 (le32 resp_size)))
            >>= cmd_answered env (get_le32 (le32 resp_size)))
          (ap not debug))
      ∙ ap
          (λ o.
            run o (take ((8 + length req_data + 2 ^ 64 - 8) % 2 ^ 64) (req_data ++ beyond))
              (get_le32 (le32 resp_size)))
          same_opcode
      ∙ ap₂ (λ bytes n. run opcode bytes n) same_data same_size
    where
      run : ℕ → List ℕ → ℕ → ℤ × World D
      run o bytes n =
          let (r, d) = fcp_cmd env.ioctl o bytes n v.world.dev in
          cmd_answered env n r (record (v.world) { dev = d })

      same_opcode : get_le32 (le32 opcode) ≡ opcode
      same_opcode = get_le32-le32 opcode [] ∙ omega (arith, code)

      same_size : get_le32 (le32 resp_size) ≡ resp_size
      same_size = get_le32-le32 resp_size [] ∙ omega (arith, size)

      same_data : take ((8 + length req_data + 2 ^ 64 - 8) % 2 ^ 64) (req_data ++ beyond) ≡ req_data
      same_data =
          ap (λ n. take n (req_data ++ beyond)) (omega (arith, small)) ∙ take-append req_data beyond

  handled :
      (v : Service D)
      → env.fcp_debug ≡ true
      → opcode < 2 ^ 32
      → resp_size < 2 ^ 32
      → let (r, d) = fcp_cmd env.ioctl opcode req_data resp_size v.world.dev in
        handle_client_command env (read_header request) (request ++ beyond) v ≡ (
          some tt,
          record v { world = record (v.world) { dev = d; log = v.world.log ++ reply r ∷ [] } },
        )
  unfolding handle_client_command on_world
  handled v debug code size = rw header_read (
      ap (answered v) (driven v debug code size)
      ∙ replied v (fcp_cmd env.ioctl opcode req_data resp_size v.world.dev).0
          (fcp_cmd env.ioctl opcode req_data resp_size v.world.dev).1)

  sends :
      (c : Connection)
      → c.writes ≡ []
      → send_fcp_cmd opcode req_data resp_size c
        ≡ handle_server_responses true (record c { sent = c.sent ++ request; writes = [] })
  unfolding send_fcp_cmd put put_some fcp_request
  sends c all = rw all

  -- What the driver gives for the client's opcode, data and size, cut to the size asked for.
  abbrev pub driver : D → Res (List ℕ) × D
  driver d =
      continue (λ resp. pure_d (take resp_size resp)) (env.ioctl opcode req_data resp_size d).0
        (env.ioctl opcode req_data resp_size d).1

  -- For a socket that takes all bytes, FCP_DEBUG set, an opcode of 32 bits, and a request and a size that fit
  -- into the 16 bits that the driver has for them: the client sends one request, for which the server gives
  -- the driver exactly the client's opcode, data and size, once, and sends back the bytes that were asked for
  -- of what the driver gives, or FCP_SOCKET_ERR_FCP if it fails.
  pub send_fcp_cmd-served :
      (c : Connection) (v : Service D)
      → c.writes ≡ []
      → env.fcp_debug ≡ true
      → opcode < 2 ^ 32
      → length req_data < 2 ^ 16
      → resp_size < 2 ^ 16
      → let (r, d) = driver v.world.dev in
        (send_fcp_cmd opcode req_data resp_size c
          ≡ handle_server_responses true (record c { sent = c.sent ++ request; writes = [] }))
        × (handle_client_command env (read_header request) (request ++ beyond) v ≡ (
          some tt,
          record v { world = record (v.world) { dev = d; log = v.world.log ++ reply r ∷ [] } },
        ))
  send_fcp_cmd-served c v all debug code short size = (
    sends c all,
    handled v debug code (omega (arith, size))
        ∙ ap
            (λ (q : Res (List ℕ) × D). (
              some tt,
              record v {
                world = record (v.world) { dev = q.1; log = v.world.log ++ reply q.0 ∷ [] };
              },
            ))
            (fcp_cmd_small env.ioctl opcode req_data resp_size v.world.dev short size),
  )
