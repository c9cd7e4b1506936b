-- ===== src/Chat/Packet.antt =====
-- The packets that `lsend_chat` of chat_room/lualib-src/lua-socket.c hands to the socket.
use sasy_server.Base.{
  ℕ, ◌+◌, ◌*◌, ◌/◌, ◌%◌, ◌^◌, ◌≤◌, ◌≡◌, refl, ap, sym, subst, ◌∙◌, ◌≢◌, drop, [], ◌∷◌, ◌++◌, ltb,
  ◌==◌, if◌then◌else◌, Bool-cases, inl, inr, Bytes, length, get_or, get_or-append_left, arith, u32,
  Call, returns, crashes,
}

-- `sizeof(struct packet_header)`, and the room for the text.
abbrev pub header_size : ℕ
header_size = 12

abbrev pub text_size : ℕ
text_size = 2048

-- An `int` in memory, of which the pattern of bits is given, and what is read there.
abbrev pub int_bytes : ℕ → Bytes
int_bytes n = n % 2 ^ 8 ∷ n / 2 ^ 8 % 2 ^ 8 ∷ n / 2 ^ 16 % 2 ^ 8 ∷ n / 2 ^ 24 % 2 ^ 8 ∷ []

abbrev pub int_at : Bytes → ℕ → ℕ
int_at bytes p =
    get_or bytes p 0
    + get_or bytes (p + 1) 0 * 2 ^ 8
    + get_or bytes (p + 2) 0 * 2 ^ 16
    + get_or bytes (p + 3) 0 * 2 ^ 24

-- `lsend_chat`: the bytes for the socket. The integers of Lua are given by their patterns of bits. A
-- text that is longer than its field is copied over what stands behind it; the assertion wants the
-- length to be that of the text.
unfoldable pub send_chat : ℕ → ℕ → ℕ → Bytes → Call Bytes
send_chat uin cmd len str =
    if ltb text_size (length str)
    then crashes
    else if u32 len == length str
    then returns (int_bytes uin ++ (int_bytes cmd ++ (int_bytes len ++ str)))
    else crashes

-- A packet as a peer reads it: the head's integers, and the text behind the head.
pub record IsMessage (uin cmd : ℕ) (str message : Bytes) : Type 0 where
  pub fits : length str ≤ text_size
  pub long : length message ≡ header_size + length str
  pub uin_of : int_at message 0 ≡ u32 uin
  pub cmd_of : int_at message 4 ≡ u32 cmd
  pub len_of : int_at message 8 ≡ length str
  pub text_of : drop header_size message ≡ str

written-IsMessage :
    (uin cmd len : ℕ) (str : Bytes)
    → length str ≤ text_size
    → u32 len ≡ length str
    → IsMessage uin cmd str (int_bytes uin ++ (int_bytes cmd ++ (int_bytes len ++ str)))
written-IsMessage uin cmd len str h e = record {
  fits = h;
  long = omega arith;
  uin_of = omega arith;
  cmd_of = omega arith;
  len_of = omega (arith, e);
  text_of = refl;
}

crashes-ne-returns : (bytes : Bytes) → crashes ≢ returns bytes
crashes-ne-returns bytes e = cc

abbrev handed : Call Bytes → Bytes
handed (returns bytes) = bytes
handed _ = []

pub send_chat-IsMessage :
    (uin cmd len : ℕ) (str message : Bytes)
    → send_chat uin cmd len str ≡ returns message
    → IsMessage uin cmd str message
unfolding send_chat
send_chat-IsMessage uin cmd len str message e =
    let written = int_bytes uin ++ (int_bytes cmd ++ (int_bytes len ++ str)) in
    elim (Bool-cases (ltb text_size (length str))) [
      | inl long ↦
          let c : send_chat uin cmd len str ≡ crashes = rw long refl in
          absurd (crashes-ne-returns message (sym c ∙ e))
      | inr short ↦ elim (Bool-cases (u32 len == length str)) [
        | inl same ↦
            let r : send_chat uin cmd len str ≡ returns written = rw (short, same) refl in
            subst (IsMessage uin cmd str) (ap handed (sym r ∙ e))
              (written-IsMessage uin cmd len str (ground (arith, short)) (ground (arith, same)))
        | inr other ↦
            let c : send_chat uin cmd len str ≡ crashes = rw (short, other) refl in
            absurd (crashes-ne-returns message (sym c ∙ e))
      ]
    ]

pub int_at-append : (xs ys : Bytes) (p : ℕ) → p + 4 ≤ length xs → int_at (xs ++ ys) p ≡ int_at xs p
int_at-append xs ys p h =
    rw
      (
        get_or-append_left xs ys p 0 (omega arith),
        get_or-append_left xs ys (p + 1) 0 (omega arith),
        get_or-append_left xs ys (p + 2) 0 (omega arith),
        get_or-append_left xs ys (p + 3) 0 (omega arith),
      )
      refl

-- That `lsend_chat` sends a packet.
pub record IsSent (message : Bytes) : Type 0 where
  pub uin : ℕ
  pub cmd : ℕ
  pub len : ℕ
  pub str : Bytes
  pub sent : send_chat uin cmd len str ≡ returns message

pub read-IsSent : (message : Bytes) (s : IsSent message) → IsMessage s.uin s.cmd s.str message
read-IsSent message s = send_chat-IsMessage s.uin s.cmd s.len s.str message s.sent
