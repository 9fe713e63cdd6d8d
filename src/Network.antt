-- ===== src/Network.antt =====
-- src/libs/networkCom.c and the part of main() in src/main.c that opens the socket, looks the server
-- up and connects to it. The calls of the operating system are the fields of `NetworkCalls`.
pub mod Address
pub mod Options
pub mod Setup
use ipk_project.Prelude.{
  ℕ, ◌/◌, ◌%◌, ◌^◌, Bool, List, [], ◌∷◌, ◌++◌, Option, none, some, ltb, ◌==◌, if◌then◌else◌, length,
  drop, replicate,
}
use ipk_project.Outcome.{Outcome, ok, error, fault, ErrorCode, ◌>>=◌}
use ipk_project.Memory.{Cell, or_fault}
use ipk_project.Program.{ProgramInterface, Protocol}

-- SOCK_DGRAM and SOCK_STREAM
pub data SocketKind : Type 0 where
  sock_dgram sock_stream : SocketKind

-- struct sockaddr_in: the port and the address as the bytes that stand in memory
pub record SockaddrIn : Type 0 where
  pub sin_family : ℕ
  pub sin_port : List ℕ
  pub sin_addr : List ℕ

-- What the operating system answers: a socket for AF_INET, or a negative number (`none`); the first
-- address of a host, or NULL; whether connect() returned 0.
pub record NetworkCalls : Type 0 where
  pub socket : SocketKind → Option ℕ
  pub gethostbyname : List ℕ → Option (List ℕ)
  pub connect : ℕ → SockaddrIn → Bool

abbrev pub af_inet : ℕ
af_inet = 2

-- the bytes of htons(), the high one first
abbrev pub htons : ℕ → List ℕ
htons port = (port / 2 ^ 8) % 256 ∷ port % 256 ∷ []

-- the characters before the zero byte of a string
unfoldable pub c_string : List Cell → Outcome (List ℕ)
c_string [] = fault
c_string (none ∷ cells) = fault
c_string (some c ∷ cells) =
    let rest = c_string cells in if c == 0 then ok [] else rest >>= (λ r. ok (c ∷ r))

abbrev opened : Option ℕ → Outcome ℕ
opened none = error ErrorCode.network_init
opened (some s) = ok s

unfoldable pub get_socket : NetworkCalls → Protocol → Outcome ℕ
get_socket calls Protocol.udp = opened (calls.socket SocketKind.sock_dgram)
get_socket calls Protocol.tcp = opened (calls.socket SocketKind.sock_stream)
get_socket calls Protocol.unset = error ErrorCode.network_init

-- The address is cleared before the bytes of the host are copied over its four bytes.
unfoldable pub find_server : NetworkCalls → List ℕ → ℕ → Outcome SockaddrIn
find_server calls hostname port = elim (calls.gethostbyname hostname) [
  | none ↦ error ErrorCode.network_init
  | some host ↦
      if ltb 4 (length host)
      then fault
      else ok (record {
        sin_family = af_inet;
        sin_port = htons port;
        sin_addr = host ++ drop (length host) (replicate 4 0);
      })
]

-- The program with the fields of NetworkConfig that main() sets before the threads begin, and the
-- calls of connect() that main() made, with the socket and the address.
pub record Connected : Type 0 where
  pub program : ProgramInterface
  pub opened_socket : ℕ
  pub server_address : SockaddrIn
  pub connections : List (ℕ × SockaddrIn)

-- main() from getSocket() to the threads
unfoldable pub connect_server : NetworkCalls → ProgramInterface → Outcome Connected
unfolding c_string get_socket find_server
connect_server calls prog = do
  s ← get_socket calls prog.protocol
  cells ← or_fault prog.client_input.bytes
  hostname ← c_string cells
  address ← find_server calls hostname prog.port_number
  let unconnected : Connected = record {
    program = prog;
    opened_socket = s;
    server_address = address;
    connections = [];
  }
  elim prog.protocol [
    | Protocol.tcp ↦
        if calls.connect s address
        then ok (record unconnected { connections = (s, address) ∷ [] })
        else error ErrorCode.network_init
    | _ ↦ ok unconnected
  ]
