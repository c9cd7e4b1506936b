-- ===== src/Client/Answers.antt =====
-- What game_room/client/httpclient.c does with the packets of the gate:
-- `get_loginServer_heartBeat_s2c_HeartBeat_rbuffer`, `get_loginServer_login_s2c_Login_rbuffer` and the
-- choice between them in `thread_gate_read`.
use sasy_server.Base.{
  returns, ℕ, ◌%◌, ◌^◌, ◌≤◌, ◌≡◌, ◌≢◌, refl, ap, ◌∙◌, Bool, true, false, List, [], ◌∷◌, leb, ◌==◌,
  if◌then◌else◌, Bytes, codes, length, joined, All, arith, Option, none, some,
}
use sasy_server.Base.Int.{pos}
use sasy_server.GamePacket.{block, as_block, pack_net_packet}
use sasy_server.Client.Receive.{proto_no, payload, reading, read_all}
use sasy_server.Client.Receive.Packed.{read_all-pack_net_packet}

-- What the client has of the library of protocol buffers and of its files: the file at a path, whether
-- `pbc_new` and `pbc_register` succeed, and the message of a type that `pbc_rmessage_new` reads.
pub record Pbc {ℓ} (Message : Type ℓ) : Type ℓ where
  pub file : Bytes → Option Bytes
  pub opens : Bool
  pub registers : Bytes → Bool
  pub rmessage : Bytes → Bytes → Option Message

module _ {ℓ} {Message : Type ℓ} (pbc : Pbc Message) where
  -- `memcpy(slice->buffer, pdata, len)` where the block of the file has room for it.
  abbrev pub message_slice : Bytes → Bytes → Bytes
  message_slice contents pdata = if leb (length pdata) (length contents) then pdata else contents

  abbrev pub registered : Bytes → Bytes → Bytes → Option Message
  registered type_name contents pdata =
      if pbc.opens
      then (if pbc.registers contents
          then pbc.rmessage type_name (message_slice contents pdata)
          else none)
      else none

  abbrev pub from_file : Option Bytes → Bytes → Bytes → Option Message
  from_file none type_name pdata = none
  from_file (some contents) type_name pdata = registered type_name contents pdata

  -- The message that is read, and printed; `none` is the result 0.
  unfoldable pub s2c_rbuffer : Bytes → Bytes → Bytes → Option Message
  s2c_rbuffer file_path type_name pdata = from_file (pbc.file file_path) type_name pdata

  abbrev pub heart_beat_rbuffer : Bytes → Option Message
  heart_beat_rbuffer pdata =
      s2c_rbuffer (codes "../pbs/loginServer.heartBeat.s2c.pb")
        (codes "loginServer.heartBeat.s2c.HeartBeat") pdata

  abbrev pub login_rbuffer : Bytes → Option Message
  login_rbuffer pdata =
      s2c_rbuffer (codes "../pbs/loginServer.login.s2c.pb") (codes "loginServer.login.s2c.Login")
        pdata

  -- `uProtoNo` decides who reads the packet.
  unfoldable pub answer_to : Bytes → Option Message
  answer_to packet =
      if proto_no packet == 0x000000
      then heart_beat_rbuffer (payload packet)
      else if proto_no packet == 0x000100
      then login_rbuffer (payload packet)
      else none

  s2c_rbuffer-registered :
      (file_path type_name contents pdata : Bytes)
      → pbc.file file_path ≡ some contents
      → pbc.opens ≡ true
      → pbc.registers contents ≡ true
      → s2c_rbuffer file_path type_name pdata
        ≡ pbc.rmessage type_name (message_slice contents pdata)
  unfolding s2c_rbuffer
  s2c_rbuffer-registered file_path type_name contents pdata f o r =
      ap (λ c. from_file c type_name pdata) f ∙ rw (o, r) refl

-- The two messages of the server, with the number, the file and the type of each.
pub data Answer : Type 0 where
  heart_beat : Answer
  login : Answer

abbrev pub number_of : Answer → ℕ
number_of heart_beat = 0x000000
number_of login = 0x000100

abbrev pub path_of : Answer → Bytes
path_of heart_beat = codes "../pbs/loginServer.heartBeat.s2c.pb"
path_of login = codes "../pbs/loginServer.login.s2c.pb"

abbrev pub type_of : Answer → Bytes
type_of heart_beat = codes "loginServer.heartBeat.s2c.HeartBeat"
type_of login = codes "loginServer.login.s2c.Login"

answer_to-number {ℓ} :
    {Message : Type ℓ} (pbc : Pbc Message) (answer : Answer) (packet : Bytes)
    → proto_no packet ≡ number_of answer
    → answer_to pbc packet ≡ s2c_rbuffer pbc (path_of answer) (type_of answer) (payload packet)
unfolding answer_to
answer_to-number pbc heart_beat packet e = rw (zero_number) refl
  where
    zero_number : (proto_no packet == 0) ≡ true
    zero_number = ground (arith, e)
answer_to-number pbc login packet e = rw (not_zero, login_number) refl
  where
    not_zero : (proto_no packet == 0) ≡ false
    not_zero = ground (arith, e)

    login_number : (proto_no packet == 0x100) ≡ true
    login_number = ground (arith, e)

-- When the server packs a message of at most 65529 bytes with the number of a heart beat or of a login, and the file of its
-- type is there and is registered, the client takes one packet, in whatever parts it comes, and reads
-- from it the message that was packed if that is not longer than the file; if it is longer, the client
-- reads the file itself as the message.
pub read_all-answers {ℓ} :
    {Message : Type ℓ} (pbc : Pbc Message) (answer : Answer) (contents body : Bytes) (number : ℕ)
    (sent : Bytes) (size : ℕ) (reads : List Bytes)
    → pbc.file (path_of answer) ≡ some contents
    → pbc.opens ≡ true
    → pbc.registers contents ≡ true
    → number % 2 ^ 24 ≡ number_of answer
    → length body ≤ 65529
    → pack_net_packet (block body) (pos (length body)) number false ≡ returns (as_block sent size)
    → joined reads ≡ sent
    → All (λ bytes. bytes ≢ []) reads
    → (packet : Bytes) × (read_all reads [] ≡ (packet ∷ [], reading []))
      × (answer_to pbc packet
          ≡ pbc.rmessage
              (type_of answer)
              (if leb (length body) (length contents) then body else contents))
read_all-answers pbc answer contents body number sent size reads f o r e h p j a =
    let (packet, taken, says, holds) =
      read_all-pack_net_packet body number sent size reads h p j a in
    (
      packet,
      taken,
      answer_to-number pbc answer packet (says ∙ e)
          ∙ s2c_rbuffer-registered pbc (path_of answer) (type_of answer) contents (payload packet) f
              o r
          ∙ ap (λ t. pbc.rmessage (type_of answer) (message_slice pbc contents t)) holds,
    )
