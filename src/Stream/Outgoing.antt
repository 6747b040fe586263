-- ===== src/Stream/Outgoing.antt =====
-- The map of packets that are not acknowledged yet, newest first: its order, and sums over it.
use async_udx.Prelude.{
  ℕ, suc, ◌+◌, ◌*◌, ◌≤◌, ◌<◌, ◌≡◌, refl, List, [], ◌∷◌, none, some, if◌then◌else◌, length, arith,
  All,
}
use async_udx.Map.{lookup, remove}
use async_udx.Packet.Types.{Shared, Flags, Cells, update, packet_len, data_len}

abbrev pub Outgoing : Type 0
Outgoing = List (ℕ × Shared)

-- Sequence numbers and addresses fall along the list, and stay under their bounds.
abbrev pub Below : ℕ → ℕ → Outgoing → Type 0
Below n c [] = Unit {0}
Below n c ((k, p) ∷ m) = (k < n) × (p.cell < c) × Below k p.cell m

-- No packet is larger than `UDX_MTU`.
abbrev pub Small : Outgoing → Type 0
Small = All (λ e. packet_len e.1.packet ≤ 1400)

abbrev pub total : (Shared → ℕ) → Outgoing → ℕ
total w [] = 0
total w ((k, p) ∷ m) = w p + total w m

-- What a packet adds to `inflight`, and to `stats.inflight_bytes`.
abbrev pub weight : Cells → Shared → ℕ
weight cells p = if (cells p.cell).waiting then 0 else packet_len p.packet

abbrev pub payload : Shared → ℕ
payload p = data_len p.packet

pub Below-mono : {m n c d : ℕ} (o : Outgoing) → m ≤ n → c ≤ d → Below m c o → Below n d o
Below-mono [] h k b = tt
Below-mono ((j, p) ∷ o) h k b = (omega arith, omega arith, b.2)

pub remove-Below : (n c k : ℕ) (o : Outgoing) → Below n c o → Below n c (remove k o)
unfolding remove
remove-Below n c k [] b = tt
remove-Below n c k ((j, p) ∷ o) b = ground (
  arith,
  remove-Below j p.cell k o b.2,
  Below-mono {m = j} {n = n} {c = p.cell} {d = c} (remove k o),
)

pub remove_absent : (n c k : ℕ) (o : Outgoing) → Below n c o → n ≤ k → remove k o ≡ o
unfolding remove
remove_absent n c k [] b h = refl
remove_absent n c k ((j, p) ∷ o) b h = ground (arith, remove_absent j p.cell k o b.2)

pub remove_of_none : (k : ℕ) (o : Outgoing) → lookup k o ≡ none → remove k o ≡ o
unfolding lookup remove
remove_of_none k [] e = refl
remove_of_none k ((j, p) ∷ o) e = ground (arith, remove_of_none k o)

pub remove-Small : (k : ℕ) (o : Outgoing) → Small o → Small (remove k o)
unfolding remove
remove-Small k [] h = tt
remove-Small k ((j, p) ∷ o) h = ground (arith, remove-Small k o h.1)

pub lookup-Small :
    (k : ℕ) (o : Outgoing) {p : Shared} → Small o → lookup k o ≡ some p → packet_len p.packet ≤ 1400
unfolding lookup
lookup-Small k [] s e = cc
lookup-Small k ((j, q) ∷ o) {p} s e = ground (arith, lookup-Small k o {p = p} s.1)

pub lookup-Below :
    (n c k : ℕ) (o : Outgoing) {p : Shared}
    → Below n c o
    → lookup k o ≡ some p
    → (k < n) × (p.cell < c)
unfolding lookup
lookup-Below n c k [] b e = cc
lookup-Below n c k ((j, q) ∷ o) {p} b e = ground (arith, lookup-Below j q.cell k o {p = p} b.2)

-- A sum splits off the packet that is removed.
pub total-remove :
    (w : Shared → ℕ) (n c k : ℕ) (o : Outgoing) {p : Shared}
    → Below n c o
    → lookup k o ≡ some p
    → total w o ≡ w p + total w (remove k o)
unfolding lookup remove
total-remove w n c k [] b e = cc
total-remove w n c k ((j, q) ∷ o) {p} b e =
    ground (arith, total-remove w j q.cell k o {p = p} b.2, remove_absent j q.cell k o b.2)

pub length-remove :
    (n c k : ℕ) (o : Outgoing) {p : Shared}
    → Below n c o
    → lookup k o ≡ some p
    → length o ≡ suc (length (remove k o))
unfolding lookup remove
length-remove n c k [] b e = cc
length-remove n c k ((j, q) ∷ o) {p} b e =
    ground (arith, length-remove j q.cell k o {p = p} b.2, remove_absent j q.cell k o b.2)

-- A sum does not see a change at an address above the list's.
pub weight-fresh :
    (cells : Cells) (n c a : ℕ) (f : Flags) (o : Outgoing)
    → Below n c o
    → c ≤ a
    → total (weight (update cells a f)) o ≡ total (weight cells) o
weight-fresh cells n c a f [] b h = refl
weight-fresh cells n c a f ((j, p) ∷ o) b h = ground (arith, weight-fresh cells j p.cell a f o b.2)

-- A change of one packet's atomics changes the sum by that packet's weight.
pub weight-update :
    (cells : Cells) (n c k : ℕ) (f : Flags) (o : Outgoing) {p : Shared}
    → Below n c o
    → lookup k o ≡ some p
    → total (weight (update cells p.cell f)) o + weight cells p
      ≡ total (weight cells) o + (if f.waiting then 0 else packet_len p.packet)
unfolding lookup
weight-update cells n c k f [] b e = cc
weight-update cells n c k f ((j, q) ∷ o) {p} b e = ground (
  arith,
  weight-update cells j q.cell k f o {p = p} b.2,
  lookup-Below j q.cell k o {p = p} b.2,
  weight-fresh cells j q.cell p.cell f o b.2,
)

-- A change that keeps `waiting` is not seen.
pub weight-keep :
    (cells : Cells) (a : ℕ) (f : Flags) (o : Outgoing)
    → f.waiting ≡ (cells a).waiting
    → total (weight (update cells a f)) o ≡ total (weight cells) o
weight-keep cells a f [] h = refl
weight-keep cells a f ((j, p) ∷ o) h = ground (arith, weight-keep cells a f o h)

pub length-le : (n c : ℕ) (o : Outgoing) → Below n c o → length o ≤ n
length-le n c [] b = omega arith
length-le n c ((j, p) ∷ o) b = omega (arith, length-le j p.cell o b.2)

pub total-le :
    (w : Shared → ℕ) (o : Outgoing)
    → ((p : Shared) → w p ≤ packet_len p.packet)
    → Small o
    → total w o ≤ 1400 * length o
total-le w [] h s = omega arith
total-le w ((j, p) ∷ o) h s = omega (arith, h p, total-le w o h s.1)
