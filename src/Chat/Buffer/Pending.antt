-- ===== src/Chat/Buffer/Pending.antt =====
-- The bytes that wait in a socket's buffer.
use sasy_server.Base.{
  All-append, length-append, ℕ, ◌+◌, ◌<◌, ◌≡◌, refl, ap, sym, ◌∙◌, List, [], ◌∷◌, ◌++◌,
  append_assoc, append-nil, Bytes, length, drop, All, joined, u32, arith, returns, some, Outcome,
  ok,
}
use sasy_server.Base.Int.{ℤ, pos}
use sasy_server.Chat.Buffer.{SocketBuffer, push_buffer}

abbrev pub pend : ℕ → List Bytes → Bytes
pend o [] = []
pend o (node ∷ nodes) = drop o node ++ joined nodes

-- The offset lies within the first node, and every node has bytes.
abbrev pub Inside : ℕ → List Bytes → Type 0
Inside o [] = o ≡ 0
Inside o (node ∷ nodes) = (o < length node) × All (λ n. 0 < length n) nodes

-- That a run ends with `read`, and `rest` still waits.
pub record Reads (r : Outcome (Bytes × List Bytes × ℤ)) (read rest : Bytes) : Type 0 where
  pub nodes : List Bytes
  pub place : ℕ
  pub ends : r ≡ ok (read, nodes, pos place)
  pub inside : Inside place nodes
  pub waiting : pend place nodes ≡ rest

-- A socket's buffer in which `bytes` wait.
pub record Holds (sb : SocketBuffer) (bytes : Bytes) : Type 0 where
  pub place : ℕ
  pub placed : sb.offset ≡ pos place
  pub inside : Inside place sb.nodes
  pub waiting : pend place sb.nodes ≡ bytes
  pub counted : sb.size ≡ u32 (length bytes)

pub Inside-zero : (nodes : List Bytes) → All (λ n. 0 < length n) nodes → Inside 0 nodes
Inside-zero [] a = refl
Inside-zero (node ∷ nodes) a = a

pub pend-zero : (nodes : List Bytes) → pend 0 nodes ≡ joined nodes
pend-zero [] = refl
pend-zero (node ∷ nodes) = refl

joined-append :
    (nodes : List Bytes) (msg : Bytes) → joined (nodes ++ (msg ∷ [])) ≡ joined nodes ++ msg
joined-append [] msg = append-nil msg
joined-append (node ∷ nodes) msg =
    ap (λ t. node ++ t) (joined-append nodes msg) ∙ sym (append_assoc node (joined nodes) msg)

pend-append :
    (o : ℕ) (nodes : List Bytes) (msg : Bytes)
    → Inside o nodes
    → pend o (nodes ++ (msg ∷ [])) ≡ pend o nodes ++ msg
pend-append o [] msg i = rw i (append-nil msg)
pend-append o (node ∷ nodes) msg i =
    ap (λ t. drop o node ++ t) (joined-append nodes msg)
    ∙ sym (append_assoc (drop o node) (joined nodes) msg)

Inside-append :
    (o : ℕ) (nodes : List Bytes) (msg : Bytes)
    → Inside o nodes
    → 0 < length msg
    → Inside o (nodes ++ (msg ∷ []))
Inside-append o [] msg i h = rw i (h, tt)
Inside-append o (node ∷ nodes) msg i h =
    (i.0, All-append (λ n. 0 < length n) nodes (msg ∷ []) i.1 (h, tt))

-- What a socket delivers waits behind what waits already.
pub push_buffer-Holds :
    (sb : SocketBuffer) (bytes msg : Bytes)
    → Holds sb bytes
    → 0 < length msg
    → (sb' : SocketBuffer) × (push_buffer (some sb) (some msg) ≡ returns sb')
      × Holds sb' (bytes ++ msg)
unfolding push_buffer
push_buffer-Holds sb bytes msg w h = (
  record sb { size = u32 (sb.size + length msg); nodes = sb.nodes ++ (msg ∷ []) },
  refl,
  record {
    place = w.place;
    placed = w.placed;
    inside = Inside-append w.place sb.nodes msg w.inside h;
    waiting = pend-append w.place sb.nodes msg w.inside ∙ ap (λ t. t ++ msg) w.waiting;
    counted = omega (arith, w.counted, length-append bytes msg);
  },
)
