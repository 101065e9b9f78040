-- ===== src/ByteArray/Memory/Blocks.antt =====
-- The nodes of a ByteArray seen as one run of memory: what the loops of write and read do to it.
use cpp_linux_server_frame.Base.{
  ℕ, zero, suc, ◌+◌, ◌-◌, ◌*◌, ◌/◌, ◌≤◌, ◌<◌, ◌≡◌, refl, ap, ap₂, sym, ◌∙◌, inl, inr, List, [], ◌∷◌,
  ◌++◌, Option, none, some, Bool-cases, ltb, leb, ◌==◌, if◌then◌else◌, lt→ltb, Bool, length,
  get_elem?, set, take, drop, length-append, length-set, length-drop, take-append-drop,
  length-replicate, replicate, append_assoc, arith, div_unique, mul_mono,
}
use native.Mathlib.Nat.{add_assoc}
use native.Mathlib.Decide.{dec_lt}
use cpp_linux_server_frame.ByteArray.Result.{Result, ok, ◌>>=◌}
use cpp_linux_server_frame.ByteArray.Memory.{copy_to, next, new_node, write_loop, read_loop, seek}
use cpp_linux_server_frame.ByteArray.Memory.Slices.{
  copy_to-append_le, copy_to-append_add, copy_to-copy_to, drop-append_le, drop-append_add,
  take-append_le, take_add, drop-drop, length-take_le, length-copy_to,
}

-- All nodes, one behind the other.
abbrev pub flat : List (List ℕ) → List ℕ
flat [] = []
flat (node ∷ nodes) = node ++ flat nodes

-- Each node has `b` bytes.
abbrev pub IsBlocks : ℕ → List (List ℕ) → Type 0
IsBlocks b [] = Unit {0}
IsBlocks b (node ∷ nodes) = (length node ≡ b) × IsBlocks b nodes

-- The pointer to node `c`, null behind the last node.
abbrev pub cursor : List (List ℕ) → ℕ → Option ℕ
cursor nodes c = if ltb c (length nodes) then some c else none

pub length-flat :
    (b : ℕ) (nodes : List (List ℕ)) → IsBlocks b nodes → length (flat nodes) ≡ length nodes * b
length-flat b [] h = omega arith
length-flat b (node ∷ nodes) (e, h) =
    omega (arith, length-append node (flat nodes), length-flat b nodes h)

pub flat-append : (xs ys : List (List ℕ)) → flat (xs ++ ys) ≡ flat xs ++ flat ys
flat-append [] ys = refl
flat-append (x ∷ xs) ys = rw (flat-append xs ys) (sym (append_assoc x (flat xs) (flat ys)))

pub append-IsBlocks :
    (b : ℕ) (xs ys : List (List ℕ)) → IsBlocks b xs → IsBlocks b ys → IsBlocks b (xs ++ ys)
append-IsBlocks b [] ys h k = k
append-IsBlocks b (x ∷ xs) ys (e, h) k = (e, append-IsBlocks b xs ys h k)

pub replicate-IsBlocks : (b n : ℕ) → IsBlocks b (replicate n (new_node b))
replicate-IsBlocks b zero = tt
replicate-IsBlocks b (suc n) = (length-replicate b 0, replicate-IsBlocks b n)

pub node_at :
    (b : ℕ) (nodes : List (List ℕ)) (c : ℕ)
    → IsBlocks b nodes
    → c < length nodes
    → (node : List ℕ) × (get_elem? nodes c ≡ some node) × (length node ≡ b)
node_at b [] c h l = absurd (omega arith)
node_at b (node ∷ nodes) zero h l = (node, refl, h.0)
node_at b (node ∷ nodes) (suc c) h l = node_at b nodes c h.1 (omega arith)

set-IsBlocks :
    (b : ℕ) (nodes : List (List ℕ)) (c : ℕ) (node : List ℕ)
    → IsBlocks b nodes
    → length node ≡ b
    → IsBlocks b (set nodes c node)
set-IsBlocks b [] c node h e = tt
set-IsBlocks b (x ∷ nodes) zero node h e = (e, h.1)
set-IsBlocks b (x ∷ nodes) (suc c) node h e = (h.0, set-IsBlocks b nodes c node h.1 e)

copied-IsBlocks :
    (b : ℕ) (nodes : List (List ℕ)) (c k : ℕ) (node bytes : List ℕ)
    → IsBlocks b nodes
    → length node ≡ b
    → k + length bytes ≤ b
    → IsBlocks b (set nodes c (copy_to node k bytes))
copied-IsBlocks b nodes c k node bytes h len fits =
    set-IsBlocks b nodes c (copy_to node k bytes) h
      (length-copy_to node k bytes (omega arith) ∙ len)

-- A copy into node `c` is a copy into the whole memory.
flat-set :
    (b : ℕ) (nodes : List (List ℕ)) (c p : ℕ) (node bytes : List ℕ)
    → IsBlocks b nodes
    → get_elem? nodes c ≡ some node
    → p + length bytes ≤ b
    → flat (set nodes c (copy_to node p bytes)) ≡ copy_to (flat nodes) (c * b + p) bytes
flat-set b [] c p node bytes h e l = cc
flat-set b (x ∷ nodes) zero p node bytes h e l =
    let e' : node ≡ x = cc in
    rw e' (
      sym (copy_to-append_le x (flat nodes) p bytes (omega arith))
      ∙ ap (λ (t : ℕ). copy_to (x ++ flat nodes) t bytes) (omega arith))
flat-set b (x ∷ nodes) (suc c) p node bytes h e l =
    ap (◌++◌ x) (flat-set b nodes c p node bytes h.1 e l)
    ∙ sym (copy_to-append_add x (flat nodes) (c * b + p) bytes)
    ∙ ap (λ (t : ℕ). copy_to (x ++ flat nodes) t bytes) (omega arith)

-- So is a read from it.
slice-flat :
    (b : ℕ) (nodes : List (List ℕ)) (c p n : ℕ) (node : List ℕ)
    → IsBlocks b nodes
    → get_elem? nodes c ≡ some node
    → p + n ≤ b
    → take n (drop p node) ≡ take n (drop (c * b + p) (flat nodes))
slice-flat b [] c p n node h e l = cc
slice-flat b (x ∷ nodes) zero p n node h e l =
    let e' : node ≡ x = cc in
    rw e' (
      sym (take-append_le n (drop p x) (flat nodes) (omega (arith, h.0, length-drop p x)))
      ∙ ap (take n) (
          sym (drop-append_le p x (flat nodes) (omega (arith, h.0)))
          ∙ ap (λ (t : ℕ). drop t (x ++ flat nodes)) (omega arith)))
slice-flat b (x ∷ nodes) (suc c) p n node h e l =
    slice-flat b nodes c p n node h.1 e l
    ∙ ap (take n) (
        sym (drop-append_add x (flat nodes) (c * b + p))
        ∙ ap (λ (t : ℕ). drop t (x ++ flat nodes)) (omega arith))

-- The arithmetic of the cursor: byte `k` of node `c`, and what `n` more bytes make of it.
node_of : (b c k : ℕ) → k < b → (c * b + k) / b ≡ c
node_of b c k h = div_unique b c k h

next_of : (b c k n : ℕ) → 0 < b → k + n ≡ b → (c * b + k + n) / b ≡ c + 1
next_of b c k n pos e = ap (λ (t : ℕ). t / b) (omega arith) ∙ div_unique b (c + 1) 0 pos

index_lt : (b c k n len : ℕ) → 0 < n → c * b + k + n ≤ len * b → c < len
index_lt b c k n len pos h = grind arith

next_lt : (b c k n len : ℕ) → 0 < b → b < k + n → c * b + k + n ≤ len * b → c + 1 < len
next_lt b c k n len pos more h = elim (dec_lt (c + 1) len) [
  | yes p ↦ p
  | no p ↦ absurd (omega (arith, mul_mono len (c + 1) b (omega arith)))
]

-- The loop of write ends, keeps the shape, and copies the bytes to where it starts.
pub record Written (b : ℕ) (nodes : List (List ℕ)) (at : ℕ) (buf : List ℕ)
    (r : Result (List (List ℕ) × Option ℕ)) : Type 0 where
  pub nodes' : List (List ℕ)
  pub returns : r ≡ ok (nodes', cursor nodes' ((at + length buf) / b))
  pub blocks : IsBlocks b nodes'
  pub same_length : length nodes' ≡ length nodes
  pub copied : flat nodes' ≡ copy_to (flat nodes) at buf

-- Where the pointer is left behind `n` bytes that end in node `c`.
pointer_after :
    (b c k n : ℕ) (nodes : List (List ℕ))
    → 0 < n
    → k + n ≤ b
    → c < length nodes
    → (if b - k == n then next nodes c else some c) ≡ cursor nodes ((c * b + k + n) / b)
pointer_after b c k n nodes pos fits hc = elim (Bool-cases (b - k == n)) [
  | inl full ↦ rw full (ap (cursor nodes) (sym (next_of b c k n (omega arith) (ground arith))))
  | inr part ↦ rw part (
      ap (λ (t : Bool). if t then some c else none) (sym (lt→ltb c (length nodes) hc))
      ∙ ap (cursor nodes) (
          sym (
            ap (λ (t : ℕ). t / b) (add_assoc (c * b) k n) ∙ div_unique b c (k + n) (ground arith))))
]

last_round :
    (b : ℕ) (nodes : List (List ℕ)) (c k x : ℕ) (buf node : List ℕ)
    → IsBlocks b nodes
    → get_elem? nodes c ≡ some node
    → length node ≡ b
    → k < b
    → c < length nodes
    → k + length (x ∷ buf) ≤ b
    → Written b nodes (c * b + k) (x ∷ buf) (
        ok (
          set nodes c (copy_to node k (x ∷ buf)),
          if b - k == length (x ∷ buf) then next nodes c else some c,
        ))
last_round b nodes c k x buf node h e len hk hc fits = record {
  nodes' = set nodes c (copy_to node k (x ∷ buf));
  returns =
      ap (λ (p : Option ℕ). ok (set nodes c (copy_to node k (x ∷ buf)), p))
        (pointer_after b c k (length (x ∷ buf)) nodes (omega arith) fits hc
          ∙ ap
              (λ (t : ℕ).
                if ltb ((c * b + k + length (x ∷ buf)) / b) t
                then some ((c * b + k + length (x ∷ buf)) / b)
                else none)
              (sym (length-set nodes c (copy_to node k (x ∷ buf)))));
  blocks = copied-IsBlocks b nodes c k node (x ∷ buf) h len fits;
  same_length = length-set nodes c (copy_to node k (x ∷ buf));
  copied = flat-set b nodes c k node (x ∷ buf) h e fits;
}

-- A round that fills its node, and the rounds behind it.
first_round :
    (b : ℕ) (nodes : List (List ℕ)) (c k : ℕ) (buf node : List ℕ)
    {r : Result (List (List ℕ) × Option ℕ)}
    → IsBlocks b nodes
    → get_elem? nodes c ≡ some node
    → length node ≡ b
    → k < b
    → b - k ≤ length buf
    → c * b + k + length buf ≤ length nodes * b
    → Written b
        (set nodes c (copy_to node k (take (b - k) buf)))
        ((c + 1) * b + 0)
        (drop (b - k) buf)
        r
    → Written b nodes (c * b + k) buf r
first_round b nodes c k buf node h e len hk more fits w = record {
  nodes' = w.nodes';
  returns =
      w.returns
      ∙ ap (λ (t : ℕ). ok (w.nodes', cursor w.nodes' (t / b)))
          (omega (arith, length-drop (b - k) buf));
  blocks = w.blocks;
  same_length = w.same_length ∙ length-set nodes c (copy_to node k (take (b - k) buf));
  copied =
      w.copied
      ∙ ap (λ (m : List ℕ). copy_to m ((c + 1) * b + 0) (drop (b - k) buf))
          (flat-set b nodes c k node (take (b - k) buf) h e (omega (arith, head)))
      ∙ ap
          (λ (t : ℕ).
            copy_to (copy_to (flat nodes) (c * b + k) (take (b - k) buf)) t (drop (b - k) buf))
          (omega (arith, head))
      ∙ copy_to-copy_to (flat nodes) (c * b + k) (take (b - k) buf) (drop (b - k) buf)
          (omega (arith, head, length-flat b nodes h))
      ∙ ap (copy_to (flat nodes) (c * b + k)) (take-append-drop (b - k) buf);
}
  where
    head : length (take (b - k) buf) ≡ b - k
    head = length-take_le (b - k) buf more

pub write_loop-Written :
    (b fuel : ℕ) (nodes : List (List ℕ)) (c k : ℕ) (buf : List ℕ)
    → IsBlocks b nodes
    → k < b
    → 0 < length buf
    → length buf ≤ fuel
    → c * b + k + length buf ≤ length nodes * b
    → Written b nodes (c * b + k) buf (write_loop fuel nodes (some c) k buf)
unfolding write_loop
write_loop-Written b fuel nodes c k [] h hk pos enough fits = absurd (omega arith)
write_loop-Written b zero nodes c k (x ∷ buf) h hk pos enough fits = absurd (omega arith)
write_loop-Written b (suc fuel) nodes c k (x ∷ buf) h hk pos enough fits =
    let hc : c < length nodes = index_lt b c k (length (x ∷ buf)) (length nodes) pos fits in
    let (node, e, len) = node_at b nodes c h hc in
    elim (Bool-cases (leb (length (x ∷ buf)) (b - k))) [
      | inl last ↦
          rw (e, len, last, write_loop)
            (last_round b nodes c k x buf node h e len hk hc (ground arith))
      | inr more ↦
          rw (e, len, more, write_loop)
            (let short : b - k < length (x ∷ buf) = ground arith in
              let head : length (take (b - k) (x ∷ buf)) ≡ b - k =
                length-take_le (b - k) (x ∷ buf) (omega arith) in
              let left : length (drop (b - k) (x ∷ buf)) ≡ length (x ∷ buf) - (b - k) =
                length-drop (b - k) (x ∷ buf) in
              let hc' : c + 1 < length nodes =
                next_lt b c k (length (x ∷ buf)) (length nodes) (omega arith) (ground arith) fits in
              rw (lt→ltb (c + 1) (length nodes) hc') (
                first_round b nodes c k (x ∷ buf) node h e len hk (ground arith) fits (
                  write_loop-Written b fuel (set nodes c (copy_to node k (take (b - k) (x ∷ buf))))
                    (c + 1) 0 (drop (b - k) (x ∷ buf))
                    (copied-IsBlocks b nodes c k node (take (b - k) (x ∷ buf)) h len
                      (omega (arith, head)))
                    (omega arith) (omega (arith, left)) (omega (arith, left))
                    (omega (
                      arith,
                      left,
                      length-set nodes c (copy_to node k (take (b - k) (x ∷ buf))),
                      ap (λ (t : ℕ). t * b)
                          (length-set nodes c (copy_to node k (take (b - k) (x ∷ buf)))),
                    )))))
    ]

==_comm : (a b : ℕ) → (a == b) ≡ (b == a)
==_comm a b = ground arith

-- The loop of read ends, with the bytes of the memory from where it starts.
pub record Fetched (b : ℕ) (nodes : List (List ℕ)) (at n : ℕ) (r : Result (List ℕ × Option ℕ))
    : Type 0 where
  pub returns : r ≡ ok (take n (drop at (flat nodes)), cursor nodes ((at + n) / b))

last_fetch :
    (b : ℕ) (nodes : List (List ℕ)) (c k n : ℕ) (node : List ℕ)
    → IsBlocks b nodes
    → get_elem? nodes c ≡ some node
    → 0 < n
    → k + n ≤ b
    → c < length nodes
    → Fetched b nodes
        (c * b + k)
        n
        (ok (take n (drop k node), if n == b - k then next nodes c else some c))
last_fetch b nodes c k n node h e pos fits hc = record {
  returns =
      rw
        (
          slice-flat b nodes c k n node h e fits,
          ==_comm n (b - k),
          pointer_after b c k n nodes pos fits hc,
        )
        refl;
}

first_fetch :
    (b : ℕ) (nodes : List (List ℕ)) (c k n : ℕ) (node : List ℕ) {r : Result (List ℕ × Option ℕ)}
    → IsBlocks b nodes
    → get_elem? nodes c ≡ some node
    → k < b
    → b - k ≤ n
    → Fetched b nodes ((c + 1) * b + 0) (n - (b - k)) r
    → Fetched b nodes (c * b + k) n (r >>= λ r. ok (take (b - k) (drop k node) ++ r.0, r.1))
first_fetch b nodes c k n node h e hk more w = record {
  returns = rw w.returns (
      ap₂ (λ (x : List ℕ) (y : ℕ). ok (x, cursor nodes (y / b)))
        (rw (slice-flat b nodes c k (b - k) node h e (omega arith)) (
          ap
            (λ (t : ℕ).
              take (b - k) (drop (c * b + k) (flat nodes))
              ++ take (n - (b - k)) (drop t (flat nodes)))
            (omega arith)
          ∙ ap
              (λ (t : List ℕ). take (b - k) (drop (c * b + k) (flat nodes)) ++ take (n - (b - k)) t)
              (sym (drop-drop (b - k) (c * b + k) (flat nodes)))
          ∙ sym (take_add (b - k) (n - (b - k)) (drop (c * b + k) (flat nodes)))
          ∙ ap (λ (t : ℕ). take t (drop (c * b + k) (flat nodes))) (omega arith)))
        (omega arith));
}

pub read_loop-Fetched :
    (b fuel : ℕ) (nodes : List (List ℕ)) (c k n : ℕ)
    → IsBlocks b nodes
    → k < b
    → 0 < n
    → n ≤ fuel
    → c * b + k + n ≤ length nodes * b
    → Fetched b nodes (c * b + k) n (read_loop fuel nodes (some c) k n)
unfolding read_loop
read_loop-Fetched b fuel nodes c k zero h hk pos enough fits = absurd (omega arith)
read_loop-Fetched b zero nodes c k (suc n) h hk pos enough fits = absurd (omega arith)
read_loop-Fetched b (suc fuel) nodes c k (suc n) h hk pos enough fits =
    let hc : c < length nodes = index_lt b c k (suc n) (length nodes) pos fits in
    let (node, e, len) = node_at b nodes c h hc in
    elim (Bool-cases (leb (suc n) (b - k))) [
      | inl last ↦
          rw (e, len, last, read_loop)
            (last_fetch b nodes c k (suc n) node h e pos (ground arith) hc)
      | inr more ↦
          let short : b - k < suc n = ground arith in
          let hc' : c + 1 < length nodes =
            next_lt b c k (suc n) (length nodes) (omega arith) (omega arith) fits in
          rw (e, len, more, lt→ltb (c + 1) (length nodes) hc', read_loop)
            (first_fetch b nodes c k (suc n) node h e hk (omega arith) (
              read_loop-Fetched b fuel nodes (c + 1) 0 (suc n - (b - k)) h (omega arith)
                (omega arith) (omega arith) (omega arith)))
    ]

-- setPosition stops at the node that holds byte `val`, or null behind the last byte.
pub seek-cursor :
    (b : ℕ) (nodes rest : List (List ℕ)) (c val : ℕ)
    → 0 < b
    → IsBlocks b rest
    → c + length rest ≡ length nodes
    → 0 < length rest
    → val ≤ length rest * b
    → seek nodes rest c val ≡ ok (cursor nodes ((c * b + val) / b))
unfolding seek
seek-cursor b nodes [] c val pos h len some_left fits = absurd (omega arith)
seek-cursor b nodes (node ∷ rest) c val pos (e, h) len some_left fits =
    rw e (elim (Bool-cases (ltb b val)) [
      | inl beyond ↦ rw (beyond) (
          seek-cursor b nodes rest (c + 1) (val - b) pos h (omega arith)
            (index_lt b 0 0 (val - b) (length rest) (ground arith) (ground arith)) (ground arith)
          ∙ ap (λ (t : ℕ). ok (cursor nodes (t / b))) (ground arith))
      | inr within ↦ rw within (elim (Bool-cases (val == b)) [
        | inl full ↦ rw full (
            ap (λ (t : ℕ). ok (cursor nodes t))
              (sym (ap (λ (t : ℕ). t / b) (ground arith) ∙ div_unique b (c + 1) 0 pos)))
        | inr part ↦
            rw (part, div_unique b c val (ground arith), lt→ltb c (length nodes) (omega arith)) refl
      ])
    ])
