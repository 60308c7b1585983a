-- ===== src/HwHandler/Heap.antt =====
-- The heap of `QueueNode_t` nodes of src/15.lab_hw_handler_condvar.c, and what can go wrong with it.
use qnx_box.Prelude.{
  ℕ, ◌≡◌, refl, ◌≢◌, Bool, true, false, ◌||◌, Option, none, some, List, [], ◌∷◌, arith, ◌==◌,
  if◌then◌else◌,
}

abbrev pub Ptr : Type 0
Ptr = ℕ

abbrev pub null : Ptr
null = 0

-- `QueueNode_t`
pub record QueueNode : Type 0 where
  pub next : Ptr
  pub value : ℕ  -- int data

abbrev pub queue_node : ℕ → Ptr → QueueNode
queue_node v q = record { next = q; value = v }

abbrev pub Heap : Type 0
Heap = Ptr → Option QueueNode

abbrev pub write : Heap → Ptr → Option QueueNode → Heap
write h p c a = if p == a then c else h a

-- A crash is a read or write through NULL or through a pointer to no node.
pub data Result (A : Type 0) : Type 0 where
  ok : A → Result A
  crash : Result A
  out_of_fuel : Result A

infixl 5 ◌>>=◌
abbrev pub ◌>>=◌ : {A B : Type 0} → Result A → (A → Result B) → Result B
ok a >>= k = k a
crash >>= k = crash
out_of_fuel >>= k = out_of_fuel

abbrev found : Option QueueNode → Result QueueNode
found none = crash
found (some n) = ok n

unfoldable pub read : Heap → Ptr → Result QueueNode
read h p = if p == null then crash else found (h p)

-- The nodes of a queue in order: the address and the value of each.
abbrev pub Cells : Type 0
Cells = List (Ptr × ℕ)

abbrev pub first : Cells → Ptr
first [] = null
first ((a, _) ∷ xs) = a

abbrev pub has : Ptr → Cells → Bool
has a [] = false
has a ((b, _) ∷ xs) = (b == a) || has a xs

-- The cells are distinct nodes, each linked to the next one and the last one to NULL.
abbrev pub IsChain : Heap → Cells → Type 0
IsChain h [] = Unit
IsChain h ((a, v) ∷ xs) =
    (a ≢ null) × (h a ≡ some (queue_node v (first xs))) × (has a xs ≡ false) × IsChain h xs

pub read-ok :
    (h : Heap) (a v q : ℕ) → a ≢ null → h a ≡ some (queue_node v q) → read h a ≡ ok (queue_node v q)
unfolding read
read-ok h a v q ne e = ground arith

pub write_self : (h : Heap) (a : Ptr) (c : Option QueueNode) → write h a c a ≡ c
write_self h a c = ground arith

pub write-ne : (h : Heap) (a b : Ptr) (c : Option QueueNode) → b ≢ a → write h a c b ≡ h b
write-ne h a b c ne = ground arith

-- A chain is untouched by changes elsewhere.
pub IsChain-outside :
    (h g : Heap) (xs : Cells)
    → ((a : Ptr) → has a xs ≡ true → g a ≡ h a)
    → IsChain h xs
    → IsChain g xs
IsChain-outside h g [] same c = tt
IsChain-outside h g ((a, v) ∷ xs) same (ne, e, out, rest) =
    (ne, ground (arith, same a), out, IsChain-outside h g xs (λ b i. same b (ground arith)) rest)

pub IsChain-write :
    (h : Heap) (a : Ptr) (c : Option QueueNode) (xs : Cells)
    → has a xs ≡ false
    → IsChain h xs
    → IsChain (write h a c) xs
IsChain-write h a c [] out chain = tt
IsChain-write h a c ((b, v) ∷ xs) out (ne, e, apart, rest) =
    (ne, ground arith, apart, IsChain-write h a c xs (ground arith) rest)

-- An address without a node is in no chain.
pub unused-not-has :
    (h : Heap) (a : Ptr) (xs : Cells) → h a ≡ none → IsChain h xs → has a xs ≡ false
unused-not-has h a [] e chain = refl
unused-not-has h a ((b, v) ∷ xs) e (ne, full, apart, rest) =
    ground (arith, unused-not-has h a xs e rest)
