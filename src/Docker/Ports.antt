-- ===== src/Docker/Ports.antt =====
-- internal/backends/docker/runtime.go: the ports of a container that are published on the host.
use e2b_local.Prelude.{
  ℕ, ◌≡◌, refl, Bool, false, not, ◌&&◌, ◌||◌, List, [], ◌∷◌, leb, ltb, nat_beq, if◌then◌else◌,
  string_eq, arith, inl, inr, Bool-cases,
}
use e2b_local.Prelude.Int.{ℤ, pos, negsuc}
use e2b_local.Prelude.Order.{sort_slice, insert_sorted, IsSorted, IsOrder, sort_slice-IsSorted}

abbrev pub docker_envd_port : ℕ
docker_envd_port = 49983

abbrev pub has_port : ℕ → List ℕ → Bool
has_port p [] = false
has_port p (q ∷ qs) = let rest = has_port p qs in nat_beq q p || rest

-- A port that may be published: not the one of envd.
abbrev pub is_publishable : ℤ → Bool
is_publishable (pos n) = ltb 0 n && leb n 65535 && not (nat_beq n docker_envd_port)
is_publishable (negsuc n) = false

abbrev pub number : ℤ → ℕ
number (pos n) = n
number (negsuc n) = 0

-- The loop, with the set of the ports that were seen.
unfoldable pub new_ports : List ℕ → List ℤ → List ℕ
new_ports seen [] = []
new_ports seen (port ∷ ports) =
    let rest = new_ports seen ports in
    let more = new_ports (number port ∷ seen) ports in
    if not (is_publishable port)
    then rest
    else if has_port (number port) seen
    then rest
    else number port ∷ more

-- `sort.Ints` at the end.
unfoldable pub normalize_docker_published_ports : List ℤ → List ℕ
unfolding new_ports
normalize_docker_published_ports ports = sort_slice ltb (new_ports [] ports)

abbrev pub IsUniquePort : List ℕ → Type 0
IsUniquePort [] = Unit
IsUniquePort (p ∷ ps) = (has_port p ps ≡ false) × IsUniquePort ps

abbrev pub asked : ℕ → List ℤ → Bool
asked p [] = false
asked p (port ∷ ports) =
    let rest = asked p ports in (is_publishable port && nat_beq (number port) p) || rest

ltb-IsOrder : IsOrder ltb
ltb-IsOrder = record { asym = λ x y h. ground arith; trans = λ x y z h k. ground arith }

has_port-new_ports :
    (p : ℕ) (seen : List ℕ) (ports : List ℤ)
    → has_port p (new_ports seen ports) ≡ (not (has_port p seen) && asked p ports)
unfolding new_ports
has_port-new_ports p seen [] = ground arith
has_port-new_ports p seen (port ∷ ports) =
    ground (arith, has_port-new_ports p seen ports, has_port-new_ports p (number port ∷ seen) ports)

IsUniquePort-new_ports : (seen : List ℕ) (ports : List ℤ) → IsUniquePort (new_ports seen ports)
unfolding new_ports
IsUniquePort-new_ports seen [] = tt
IsUniquePort-new_ports seen (port ∷ ports) = elim (Bool-cases (is_publishable port)) [
  | inr e ↦ rw e (IsUniquePort-new_ports seen ports)
  | inl e ↦ elim (Bool-cases (has_port (number port) seen)) [
    | inl m ↦ rw (e, m) (IsUniquePort-new_ports seen ports)
    | inr m ↦
        rw (e, m)
          (
            ground (arith, has_port-new_ports (number port) (number port ∷ seen) ports),
            IsUniquePort-new_ports (number port ∷ seen) ports,
          )
  ]
]

has_port-insert :
    (p q : ℕ) (ps : List ℕ) → has_port p (insert_sorted ltb q ps) ≡ (nat_beq q p || has_port p ps)
unfolding insert_sorted
has_port-insert p q [] = refl
has_port-insert p q (r ∷ ps) = ground (arith, has_port-insert p q ps)

has_port-sort : (p : ℕ) (ps : List ℕ) → has_port p (sort_slice ltb ps) ≡ has_port p ps
unfolding sort_slice
has_port-sort p [] = refl
has_port-sort p (q ∷ ps) =
    ground (arith, has_port-insert p q (sort_slice ltb ps), has_port-sort p ps)

IsUniquePort-insert :
    (q : ℕ) (ps : List ℕ)
    → has_port q ps ≡ false
    → IsUniquePort ps
    → IsUniquePort (insert_sorted ltb q ps)
unfolding insert_sorted
IsUniquePort-insert q [] h u = (refl, tt)
IsUniquePort-insert q (r ∷ ps) h (hr, u) = elim (Bool-cases (ltb r q)) [
  | inl e ↦ rw e (
    ground (arith, has_port-insert r q ps, hr, e),
    IsUniquePort-insert q ps (ground (arith, h)) u,
  )
  | inr e ↦ rw e (h, (hr, u))
]

IsUniquePort-sort : (ps : List ℕ) → IsUniquePort ps → IsUniquePort (sort_slice ltb ps)
unfolding sort_slice
IsUniquePort-sort [] u = tt
IsUniquePort-sort (q ∷ ps) (h, u) =
    IsUniquePort-insert q (sort_slice ltb ps) (ground (arith, has_port-sort q ps, h))
      (IsUniquePort-sort ps u)

-- The published ports are sorted, none stands twice, and a port is one of them exactly if it was asked
-- for, lies between 1 and 65535, and is not the port of envd.
pub normalize_ports_lem :
    (ports : List ℤ)
    → IsSorted ltb (normalize_docker_published_ports ports)
      × (IsUniquePort (normalize_docker_published_ports ports))
      × ((p : ℕ) → has_port p (normalize_docker_published_ports ports) ≡ asked p ports)
unfolding normalize_docker_published_ports
normalize_ports_lem ports = (
  sort_slice-IsSorted ltb-IsOrder (new_ports [] ports),
  IsUniquePort-sort (new_ports [] ports) (IsUniquePort-new_ports [] ports),
  λ p. ground (arith, has_port-sort p (new_ports [] ports), has_port-new_ports p [] ports),
)
