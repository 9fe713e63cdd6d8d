-- ===== src/Network/Options.antt =====
-- processArguments() of src/main.c: which of several options of one kind counts.
use ipk_project.Prelude.{
  ◌≡◌, refl, sym, ◌∙◌, ap, subst, ℕ, ◌+◌, ◌%◌, ◌^◌, ◌<◌, ◌==◌, Bool, true, false, if◌then◌else◌,
  Bool-cases, inl, inr, List, [], ◌∷◌, Option, none, some, All, length, arith,
}
use ipk_project.Outcome.{ok, ErrorCode, error, >>=-Between}
use ipk_project.Memory.{Object}
use ipk_project.Protocol.Blocks.{codes}
use ipk_project.Buffer.{Buffer}
use ipk_project.Buffer.Laws.{IsValid}
use ipk_project.Program.{ProgramInterface, Protocol}
use ipk_project.Main.{CliOption, process_arguments, process_option, same_text}
use ipk_project.Network.{c_string}
use ipk_project.Network.Address.{set_address-Addressed}

-- the last of the values that the options give, or the value before
abbrev pub last_of {ℓ} : {A : Type ℓ} → (CliOption → Option A) → A → List CliOption → A
last_of f a [] = a
last_of f a (o ∷ options) = last_of f (elim (f o) [ none ↦ a | some b ↦ b ]) options

abbrev pub port_of : CliOption → Option ℕ
port_of (CliOption.port n) = some (n % 2 ^ 16)
port_of _ = none

abbrev pub timeout_of : CliOption → Option ℕ
timeout_of (CliOption.timeout n) = some (n % 2 ^ 16)
timeout_of _ = none

abbrev pub retries_of : CliOption → Option ℕ
retries_of (CliOption.retransmissions n) = some (n % 2 ^ 8)
retries_of _ = none

abbrev pub protocol_of : CliOption → Option Protocol
protocol_of (CliOption.transport text) =
    if same_text text (codes "udp") then some Protocol.udp else some Protocol.tcp
protocol_of _ = none

abbrev pub address_of : CliOption → Option (Option (List ℕ))
address_of (CliOption.server_address a) = some (some a)
address_of _ = none

-- A string of the command line has no zero byte before its end, and fits half of the memory.
abbrev pub IsText : CliOption → Type 0
IsText (CliOption.server_address a) = All (λ c. (c == 0) ≡ false) a × (length a + 1 < 2 ^ 63)
IsText _ = Unit

pub record Config : Type 0 where
  pub protocol : Protocol
  pub port : ℕ
  pub timeout : ℕ
  pub retries : ℕ
  pub address : Option (List ℕ)

-- what the options say, where they say nothing what was so before
abbrev pub config_of : Config → List CliOption → Config
config_of c options = record {
  protocol = last_of protocol_of c.protocol options;
  port = last_of port_of c.port options;
  timeout = last_of timeout_of c.timeout options;
  retries = last_of retries_of c.retries options;
  address = last_of address_of c.address options;
}

-- the buffer has no block, or one with the address
abbrev pub Addresses : Buffer → Option (List ℕ) → Type 0
Addresses b none = b.bytes ≡ none
Addresses b (some a) = (m : Object) × (b.bytes ≡ some m) × (c_string m ≡ ok a)

pub record Configured (prog : ProgramInterface) (c : Config) : Type 0 where
  pub protocol : prog.protocol ≡ c.protocol
  pub port : prog.port_number ≡ c.port
  pub timeout : prog.udp_timeout ≡ c.timeout
  pub retries : prog.udp_max_retries ≡ c.retries
  pub valid : IsValid prog.client_input
  pub address : Addresses prog.client_input c.address

done : {p q : ProgramInterface} → ok p ≡ ok q → p ≡ q
done h = ground arith

stopped : {q : ProgramInterface} → error ErrorCode.mising_program_arg ≡ ok q → ⊥
stopped h = ground arith

transported :
    (prog q : ProgramInterface) (p : Protocol) (c : Config)
    → Configured prog c
    → record prog { protocol = p } ≡ q
    → Configured q (record c { protocol = p })
transported prog q p c k e =
    subst (λ q. Configured q (record c { protocol = p })) e
      (record {
        protocol = refl;
        port = k.port;
        timeout = k.timeout;
        retries = k.retries;
        valid = k.valid;
        address = k.address;
      })

process_option-Configured :
    (prog q : ProgramInterface) (o : CliOption) (c : Config)
    → Configured prog c
    → IsText o
    → process_option prog o ≡ ok q
    → Configured q (config_of c (o ∷ []))
unfolding process_option
process_option-Configured prog q CliOption.help_option c k t h = absurd (ground (arith, h))
process_option-Configured prog q CliOption.unknown_option c k t h = absurd (ground (arith, h))
process_option-Configured prog q (CliOption.transport text) c k t h =
    elim (Bool-cases (same_text text (codes "udp"))) [
      | inl e ↦
          subst (λ p. Configured q (record c { protocol = p })) (sym (named e))
            (transported prog q Protocol.udp c k (done (rw e at h)))
      | inr e ↦ elim (Bool-cases (same_text text (codes "tcp"))) [
        | inl f ↦
            subst (λ p. Configured q (record c { protocol = p })) (sym (named e))
              (transported prog q Protocol.tcp c k (done (rw (e, f) at h)))
        | inr f ↦ absurd (stopped (rw (e, f) at h))
      ]
    ]
  where
    chosen :
        (b : Bool)
        → elim (if b then some Protocol.udp else some Protocol.tcp) [
          | none ↦ c.protocol
          | some p ↦ p
        ]
          ≡ (if b then Protocol.udp else Protocol.tcp)
    chosen true = refl
    chosen false = refl

    named :
        {b : Bool}
        → same_text text (codes "udp") ≡ b
        → elim (protocol_of (CliOption.transport text)) [ none ↦ c.protocol | some p ↦ p ]
          ≡ (if b then Protocol.udp else Protocol.tcp)
    named {b} e =
        ap
          (λ t. elim (if t then some Protocol.udp else some Protocol.tcp) [
            | none ↦ c.protocol
            | some p ↦ p
          ])
          e
        ∙ chosen b
process_option-Configured prog q (CliOption.server_address a) c k t h =
    let (b, e, d) = set_address-Addressed prog.client_input a k.valid t.0 t.1 in
    subst (λ q. Configured q (record c { address = some a })) (done (rw e at h))
      (record {
        protocol = k.protocol;
        port = k.port;
        timeout = k.timeout;
        retries = k.retries;
        valid = d.valid;
        address = d.text;
      })
process_option-Configured prog q (CliOption.port n) c k t h =
    subst (λ q. Configured q (record c { port = n % 2 ^ 16 })) (done h)
      (record {
        protocol = k.protocol;
        port = refl;
        timeout = k.timeout;
        retries = k.retries;
        valid = k.valid;
        address = k.address;
      })
process_option-Configured prog q (CliOption.timeout n) c k t h =
    subst (λ q. Configured q (record c { timeout = n % 2 ^ 16 })) (done h)
      (record {
        protocol = k.protocol;
        port = k.port;
        timeout = refl;
        retries = k.retries;
        valid = k.valid;
        address = k.address;
      })
process_option-Configured prog q (CliOption.retransmissions n) c k t h =
    subst (λ q. Configured q (record c { retries = n % 2 ^ 8 })) (done h)
      (record {
        protocol = k.protocol;
        port = k.port;
        timeout = k.timeout;
        retries = refl;
        valid = k.valid;
        address = k.address;
      })

-- From a program with a configuration, options that are accepted lead to one with the
-- configuration in which the last option of each kind counts: the protocol, the port and the timeout
-- modulo 2 ^ 16, the retransmissions modulo 2 ^ 8, and the server address, which is read back from
-- the client's input buffer as it was given.
pub process_arguments-Configured :
    (prog p : ProgramInterface) (options : List CliOption) (c : Config)
    → Configured prog c
    → All IsText options
    → process_arguments prog options ≡ ok p
    → Configured p (config_of c options)
unfolding process_arguments
process_arguments-Configured prog p [] c k t h = subst (λ p. Configured p c) (done h) k
process_arguments-Configured prog p (o ∷ options) c k t h =
    let (q, e, rest) = >>=-Between (process_option prog o) _ h in
    process_arguments-Configured q p options (config_of c (o ∷ []))
      (process_option-Configured prog q o c k t.0 e) t.1 rest
