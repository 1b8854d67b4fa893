-- ===== src/Manager/Bird/Reload.antt =====
-- src/manager.rs: the conversation with BIRD over its socket.
use dn42_autopeer.Base.{List, [], ◌∷◌, ◌++◌, if◌then◌else◌, ◌==◌, nat_eq, Bool, false, ◌||◌}
use dn42_autopeer.Base.Text.{Text, text, trim}
use dn42_autopeer.Error.{PeerError}
use dn42_autopeer.Result.{Result, ok, err}
use dn42_autopeer.World.Types.{Failure}
use dn42_autopeer.World.Action.{Action, lift, answer, call, ◌>>=◌, ◌>>◌}
use dn42_autopeer.Manager.State.{PeerManager}

-- `line.len() >= 5 && line[4] == b' '`: the last line of an answer.
unfoldable pub ends_answer : Text → Bool
ends_answer (a ∷ b ∷ c ∷ d ∷ e ∷ rest) = e == 0x20
ends_answer _ = false

-- The first loop: the lines behind the banner.
unfoldable pub skip_banner : List Text → Result (List Text)
skip_banner [] =
    err (PeerError.bird_reload (text "The BIRD socket closed before it sent the banner"))
skip_banner (line ∷ lines) =
    let rest = skip_banner lines in if ends_answer line then ok lines else rest

-- The code of the last line begins with 8 or 9.
unfoldable pub is_refusal : Text → Bool
is_refusal [] = false
is_refusal (c ∷ rest) = c == b'8' || c == b'9'

-- The second loop, with the output so far.
unfoldable pub read_answer : List Text → Text → Result (Unit {0})
read_answer [] output =
    err (PeerError.bird_reload (text "The BIRD socket closed early. Output: " ++ trim output))
read_answer (line ∷ lines) output =
    let rest = read_answer lines (output ++ line) in
    if ends_answer line
    then (if is_refusal line then err (PeerError.bird_reload (trim (output ++ line))) else ok tt)
    else rest

-- A call of the conversation: the limit of ten seconds may cut it off.
socket_error : PeerManager → Failure → PeerError
socket_error self f =
    if f.timed_out
    then PeerError.bird_reload (text "BIRD did not respond within 10 seconds")
    else PeerError.bird_config_io f.io self.bird_socket

read_error : Failure → PeerError
read_error f =
    if f.timed_out
    then PeerError.bird_reload (text "BIRD did not respond within 10 seconds")
    else PeerError.bird_reload
        (text "BIRD socket read failed: " ++ (f.io.message ++ (text ". Output: " ++ f.detail)))

-- `reload_bird` and `reload_bird_inner`. The lines are all that BIRD sends.
unfoldable pub reload_bird : PeerManager → Action Unit
unfolding socket_error read_error
reload_bird self = do
  call (λ a w. w) (socket_error self)
  a ← answer
  rest ← lift (skip_banner a.lines)
  call (λ a w. w) (socket_error self)
  call (λ a w. w) read_error
  lift (read_answer rest [])
