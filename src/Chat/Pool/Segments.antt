-- ===== src/Chat/Pool/Segments.antt =====
-- Lists of nodes that are linked with each other.
use sasy_server.Base.{
  ℕ, ◌≡◌, ◌≢◌, refl, sym, ap₂, subst, ◌∙◌, List, [], ◌∷◌, ◌++◌, Bytes, All, All-append, Option,
  none, some,
}
use sasy_server.Chat.Pool.{BufferNode}

-- Who has a node: the list of free nodes, a socket, or nobody yet.
pub data Owner : Type 0 where
  pool : Owner
  socket : ℕ → Owner
  nobody : Owner

-- The nodes from `p` to `q`, each of another address, and all of one owner.
abbrev pub Segment : (ℕ → BufferNode) → (ℕ → Owner) → Owner → Option ℕ → List ℕ → Option ℕ → Type 0
Segment nodes own k p [] q = p ≡ q
Segment nodes own k p (a ∷ xs) q =
    (p ≡ some a) × (own a ≡ k) × All (λ b. a ≢ b) xs × Segment nodes own k (nodes a).next xs q

abbrev pub bytes_in : Option Bytes → Bytes
bytes_in none = []
bytes_in (some bytes) = bytes

-- What the nodes hold.
abbrev pub held : (ℕ → BufferNode) → List ℕ → List Bytes
held nodes [] = []
held nodes (a ∷ xs) = bytes_in (nodes a).msg ∷ held nodes xs

-- That a node is as it was, also to its owner.
pub record Kept (nodes nodes' : ℕ → BufferNode) (own own' : ℕ → Owner) (b : ℕ) : Type 0 where
  pub node : nodes' b ≡ nodes b
  pub owner : own' b ≡ own b

pub Segment-Kept :
    (nodes nodes' : ℕ → BufferNode) (own own' : ℕ → Owner) (k : Owner) (p q : Option ℕ)
    (xs : List ℕ)
    → All (Kept nodes nodes' own own') xs
    → Segment nodes own k p xs q
    → Segment nodes' own' k p xs q
Segment-Kept nodes nodes' own own' k p q [] a s = s
Segment-Kept nodes nodes' own own' k p q (b ∷ bs) a s = (
  s.0,
  a.0.owner ∙ s.1,
  s.2,
  Segment-Kept nodes nodes' own own' k (nodes' b).next q bs a.1
      (subst (λ n. Segment nodes own k n.next bs q) (sym a.0.node) s.3),
)

pub held-Kept :
    (nodes nodes' : ℕ → BufferNode) (own own' : ℕ → Owner) (xs : List ℕ)
    → All (Kept nodes nodes' own own') xs
    → held nodes' xs ≡ held nodes xs
held-Kept nodes nodes' own own' [] a = refl
held-Kept nodes nodes' own own' (b ∷ bs) a =
    ap₂ (λ n ms. bytes_in n.msg ∷ ms) a.0.node (held-Kept nodes nodes' own own' bs a.1)

-- A node behind a segment is its new end.
pub Segment-snoc :
    (nodes : ℕ → BufferNode) (own : ℕ → Owner) (k : Owner) (p q : Option ℕ) (xs : List ℕ) (t : ℕ)
    → Segment nodes own k p xs (some t)
    → own t ≡ k
    → All (λ b. b ≢ t) xs
    → (nodes t).next ≡ q
    → Segment nodes own k p (xs ++ (t ∷ [])) q
Segment-snoc nodes own k p q [] t s o n e = (s, o, tt, e)
Segment-snoc nodes own k p q (a ∷ xs) t s o n e = (
  s.0,
  s.1,
  All-append (λ b. a ≢ b) xs (t ∷ []) s.2 (n.0, tt),
  Segment-snoc nodes own k (nodes a).next q xs t s.3 o n.1 e,
)

-- Every node of a segment has its owner.
pub Segment-owned :
    (nodes : ℕ → BufferNode) (own : ℕ → Owner) (k : Owner) (p q : Option ℕ) (xs : List ℕ)
    → Segment nodes own k p xs q
    → All (λ b. own b ≡ k) xs
Segment-owned nodes own k p q [] s = tt
Segment-owned nodes own k p q (a ∷ xs) s = (s.1, Segment-owned nodes own k (nodes a).next q xs s.3)
