-- ===== src/Protocol/Assemble/Frame.antt =====
-- Assembling a message changes nothing of the program but what it printed.
use ipk_project.Prelude.{ℕ}
use ipk_project.Outcome.{Ensures, Ensures-then, returns, raises, faults, hangs, Ensures-if}
use ipk_project.Memory.{Object}
use ipk_project.Utils.Types.{CommandType}
use ipk_project.Utils.{uchar2_command_type}
use ipk_project.Buffer.{Buffer}
use ipk_project.Program.{ProgramInterface}
use ipk_project.Program.Accepted.{Logged, kept, printed}
use ipk_project.Protocol.Blocks.{ProtocolBlocks}
use ipk_project.Protocol.Assemble.{
  Assembled, udp_by_type, tcp_by_type, assemble_protocol_udp, assemble_protocol_tcp,
}

ruleset keeping = (Ensures-then, returns, raises, faults, hangs, Ensures-if, kept, printed)

abbrev pub Keeps : ProgramInterface → Assembled → Type 0
Keeps prog a = Logged prog a.program

module _ (blocks : ProtocolBlocks) (prog : ProgramInterface) where
  udp_by_type-Keeps :
      (type : CommandType) (size : ℕ) (b : Buffer)
      → Ensures (Keeps prog) (udp_by_type type size blocks b prog)
  unfolding udp_by_type
  udp_by_type-Keeps CommandType.auth size b = search keeping depth 30
  udp_by_type-Keeps CommandType.join size b = search keeping depth 30
  udp_by_type-Keeps CommandType.err size b = search keeping depth 30
  udp_by_type-Keeps CommandType.msg size b = search keeping depth 30
  udp_by_type-Keeps CommandType.conf size b = search keeping depth 30
  udp_by_type-Keeps CommandType.exit size b = search keeping depth 30
  udp_by_type-Keeps _ size b = raises

  pub assemble_protocol_udp-Keeps :
      (b : Buffer) → Ensures (Keeps prog) (assemble_protocol_udp blocks b prog)
  unfolding assemble_protocol_udp
  assemble_protocol_udp-Keeps b = udp_by_type-Keeps (uchar2_command_type blocks.type) _ _

  tcp_by_type-Keeps :
      (type : CommandType) (b : Buffer) (m : Object)
      → Ensures (Keeps prog) (tcp_by_type type blocks b prog m)
  unfolding tcp_by_type
  tcp_by_type-Keeps CommandType.auth b m = search keeping depth 30
  tcp_by_type-Keeps CommandType.join b m = search keeping depth 30
  tcp_by_type-Keeps CommandType.err b m = search keeping depth 30
  tcp_by_type-Keeps CommandType.msg b m = search keeping depth 30
  tcp_by_type-Keeps CommandType.exit b m = search keeping depth 30
  tcp_by_type-Keeps _ b m = raises

  pub assemble_protocol_tcp-Keeps :
      (b : Buffer) → Ensures (Keeps prog) (assemble_protocol_tcp blocks b prog)
  unfolding assemble_protocol_tcp
  assemble_protocol_tcp-Keeps b = search (keeping, tcp_by_type-Keeps) depth 20
