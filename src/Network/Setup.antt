-- ===== src/Network/Setup.antt =====
-- main() of src/main.c from the command line to the socket, with src/libs/networkCom.c.
use ipk_project.Prelude.{
  ◌≡◌, refl, ap, ◌∙◌, ◌≢◌, subst, ℕ, List, [], ◌∷◌, none, some, All, true, length, arith,
  append-nil,
}
use ipk_project.Outcome.{Outcome, ok, >>=-Between, ◌>>=◌}
use ipk_project.Memory.{Object}
use ipk_project.Program.{ProgramInterface, Protocol, program_interface_init}
use ipk_project.Main.{CliOption, process_arguments, check_arguments}
use ipk_project.System.{main_start}
use ipk_project.Network.{
  NetworkCalls, SockaddrIn, SocketKind, Connected, connect_server, get_socket, find_server,
  c_string, htons, af_inet,
}
use ipk_project.Network.Options.{
  Config, config_of, Configured, Addresses, IsText, process_arguments-Configured,
}

unfoldable pub main_setup : NetworkCalls → List CliOption → Outcome Connected
main_setup calls options = main_start options >>= connect_server calls

-- the configuration before the options
abbrev pub defaults : Config
defaults = record {
  protocol = Protocol.unset;
  port = 4567;
  timeout = 250;
  retries = 3;
  address = none;
}

-- what the program asks of the operating system, for a configuration with an address
abbrev pub kind_of : Protocol → SocketKind
kind_of Protocol.tcp = SocketKind.sock_stream
kind_of _ = SocketKind.sock_dgram

-- the address of a host with four bytes
abbrev pub address_at : Config → List ℕ → SockaddrIn
address_at c host = record { sin_family = af_inet; sin_port = htons c.port; sin_addr = host }

-- the calls of connect() for a protocol: one for TCP
abbrev pub connections_of : Protocol → ℕ → SockaddrIn → List (ℕ × SockaddrIn)
connections_of Protocol.tcp s address = (s, address) ∷ []
connections_of _ s address = []

checked :
    (q p : ProgramInterface) → check_arguments q ≡ ok p → (q ≡ p) × (q.protocol ≢ Protocol.unset)
unfolding check_arguments
checked q p h = (ground arith, λ e. ground arith)

pub start-Configured : Configured program_interface_init defaults
start-Configured = record {
  protocol = refl;
  port = refl;
  timeout = refl;
  retries = refl;
  valid = record { counted = refl; within = omega arith; small = omega arith };
  address = refl;
}

started-Configured :
    (options : List CliOption) (p : ProgramInterface)
    → All IsText options
    → main_start options ≡ ok p
    → Configured p (config_of defaults options) × (p.protocol ≢ Protocol.unset)
unfolding main_start
started-Configured options p t h =
    let (q, e, k) = >>=-Between (process_arguments program_interface_init options) _ h in
    let (same, known) = checked q p k in
    subst (λ p. Configured p (config_of defaults options) × (p.protocol ≢ Protocol.unset)) same
      (
        process_arguments-Configured program_interface_init q options defaults start-Configured t e,
        known,
      )

found :
    (calls : NetworkCalls) (a host : List ℕ) (port : ℕ)
    → calls.gethostbyname a ≡ some host
    → length host ≡ 4
    → find_server calls a port
      ≡ ok (record { sin_family = af_inet; sin_port = htons port; sin_addr = host })
unfolding find_server
found calls a host port h four = let whole = append-nil host in ground arith

connected :
    (calls : NetworkCalls) (prog : ProgramInterface) (m : Object) (a : List ℕ)
    (address : SockaddrIn) (s : ℕ) (protocol : Protocol)
    → prog.protocol ≡ protocol
    → protocol ≢ Protocol.unset
    → prog.client_input.bytes ≡ some m
    → c_string m ≡ ok a
    → find_server calls a prog.port_number ≡ ok address
    → calls.socket (kind_of protocol) ≡ some s
    → (protocol ≡ Protocol.tcp → calls.connect s address ≡ true)
    → connect_server calls prog
      ≡ ok (record {
        program = prog;
        opened_socket = s;
        server_address = address;
        connections = connections_of protocol s address;
      })
unfolding connect_server get_socket
connected calls prog m a address s Protocol.udp e n b c f so co = ground arith
connected calls prog m a address s Protocol.tcp e n b c f so co =
    let yes_tcp = co refl in ground arith
connected calls prog m a address s Protocol.unset e n b c f so co = absurd (n refl)

-- A command line whose options are accepted, with `a` as its last server address and none with a zero
-- byte in it, leads to a socket of the kind of the last protocol and the address of the server, where
-- the operating system gives such a socket, an address of four bytes for the name `a`, and, for TCP,
-- a connection of that socket to that address at the last port. The address has the two bytes of the
-- port in network order. With TCP connect() was called once, with the socket and the address; with
-- UDP it was not called.
pub main_setup-connected :
    (calls : NetworkCalls) (options : List CliOption) (p : ProgramInterface) (a host : List ℕ)
    (s : ℕ)
    → All IsText options
    → main_start options ≡ ok p
    → (config_of defaults options).address ≡ some a
    → calls.socket (kind_of (config_of defaults options).protocol) ≡ some s
    → calls.gethostbyname a ≡ some host
    → length host ≡ 4
    → ((config_of defaults options).protocol ≡ Protocol.tcp
        → calls.connect s (address_at (config_of defaults options) host) ≡ true)
    → main_setup calls options
      ≡ ok (record {
        program = p;
        opened_socket = s;
        server_address = address_at (config_of defaults options) host;
        connections =
            connections_of
              (config_of defaults options).protocol
              s
              (address_at (config_of defaults options) host);
      })
unfolding main_setup
main_setup-connected calls options p a host s t h last so ho four co =
    let c = config_of defaults options in
    let (k, known) = started-Configured options p t h in
    let (m, b, text) = subst (Addresses p.client_input) last k.address in
    let address =
      found calls a host p.port_number ho four
      ∙ ap (λ port. ok (record { sin_family = af_inet; sin_port = htons port; sin_addr = host }))
          k.port in
    ap (λ r. r >>= connect_server calls) h
    ∙ connected calls p m a (address_at c host) s c.protocol k.protocol
        (λ e. known (k.protocol ∙ e)) b text address so co
