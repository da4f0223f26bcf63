-- ===== src/NetDisc/Ports/Links.antt =====
-- Links are mutual: what `link_ports` keeps of them.
use infiniband_diags.Base.{
  ℕ, ◌≡◌, ◌≢◌, refl, sym, ap, ◌∙◌, inl, inr, Bool-cases, Option-cases, none, some, arith, ◌==◌,
  if◌then◌else◌,
}
use infiniband_diags.NetDisc.Ports.{Remotes, unlink, link_ports}

-- The port at the other end of a link is linked back.
abbrev pub IsMutual : Remotes → Type 0
IsMutual remotes = (a b : ℕ) → remotes a ≡ some b → remotes b ≡ some a

unlink_linked :
    (remotes : Remotes) (port peer a : ℕ)
    → remotes port ≡ some peer
    → unlink remotes port a ≡ (if a == peer then none else remotes a)
unfolding unlink
unlink_linked remotes port peer a linked = rw (unlink, linked) refl

-- A link that `unlink` leaves was there, and is not the one of the peer.
unlink_kept :
    (remotes : Remotes) (port a b : ℕ)
    → unlink remotes port a ≡ some b
    → (remotes a ≡ some b) × (remotes port ≢ some a)
unfolding unlink
unlink_kept remotes port a b h = elim (Option-cases (remotes port)) [
  | inl free ↦
      let same : unlink remotes port a ≡ remotes a = rw (unlink, free) refl in
      (sym same ∙ h, λ k. absurd (cc))
  | inr (peer, linked) ↦
      let e = unlink_linked remotes port peer a linked in
      elim (Bool-cases (a == peer)) [
        | inl hit ↦ let gone : unlink remotes port a ≡ none = e ∙ rw hit refl in absurd (cc)
        | inr miss ↦
            let same : unlink remotes port a ≡ remotes a = e ∙ rw miss refl in
            (sym same ∙ h, λ k. let eq : peer ≡ a = cc in absurd (ground (arith, miss, eq)))
      ]
]

unlink_other :
    (remotes : Remotes) (port a : ℕ) → remotes port ≢ some a → unlink remotes port a ≡ remotes a
unfolding unlink
unlink_other remotes port a h = elim (Option-cases (remotes port)) [
  | inl free ↦ rw (unlink, free) refl
  | inr (peer, linked) ↦ elim (Bool-cases (a == peer)) [
    | inl hit ↦ let eq : peer ≡ a = ground (arith, hit) in absurd (h (linked ∙ ap some eq))
    | inr miss ↦ unlink_linked remotes port peer a linked ∙ rw miss refl
  ]
]

module _ (remotes : Remotes) (port remoteport : ℕ) (back : IsMutual remotes) where
  abbrev parted : Remotes
  parted = unlink (unlink remotes port) remoteport

  -- A link of a third port is with a third port, and stays mutual.
  third :
      (a b : ℕ)
      → a ≢ port
      → a ≢ remoteport
      → parted a ≡ some b
      → (b ≢ port) × ((b ≢ remoteport) × (parted b ≡ some a))
  third a b ne ne' h =
      let (h₁, apart₁) = unlink_kept (unlink remotes port) remoteport a b h in
      let (h₀, apart₀) = unlink_kept remotes port a b h₁ in
      let mate = back a b h₀ in
      let free₀ : remotes port ≢ some b = λ k. let k' = back port b k in ne (cc) in
      let same₀ = unlink_other remotes port b free₀ in
      let free₁ : unlink remotes port remoteport ≢ some b =
        λ k. let k' = back remoteport b (unlink_kept remotes port remoteport b k).0 in ne' (cc) in
      let same₁ = unlink_other (unlink remotes port) remoteport b free₁ in
      (
        (λ k. apart₀ (ap remotes (sym k) ∙ mate)),
        ((λ k. apart₁ (ap (unlink remotes port) (sym k) ∙ (same₀ ∙ mate))), same₁ ∙ (same₀ ∙ mate)),
      )

linked-back :
    (remotes : Remotes) (port remoteport : ℕ)
    → IsMutual remotes
    → IsMutual (link_ports remotes port remoteport)
unfolding link_ports
linked-back remotes port remoteport back a b h = elim (Bool-cases (a == remoteport)) [
  | inl far ↦
      let same : link_ports remotes port remoteport a ≡ some port = rw far refl in
      let eq : port ≡ b = cc in
      let at : a ≡ remoteport = ground (arith, far) in rw (← eq, at) (ground arith)
  | inr off ↦ elim (Bool-cases (a == port)) [
    | inl near ↦
        let same : link_ports remotes port remoteport a ≡ some remoteport = rw (off, near) refl in
        let eq : remoteport ≡ b = cc in
        let at : a ≡ port = ground (arith, near) in rw (← eq, at) (ground arith)
    | inr away ↦
        let same : parted remotes port remoteport back a ≡ some b = sym (rw (off, away) refl) ∙ h in
        let (ne, (ne', mate)) =
          third remotes port remoteport back a b (λ e. absurd (ground (arith, e, away)))
            (λ e. absurd (ground (arith, e, off))) same in
        ground (arith, ne, ne', mate)
  ]
]

-- Linking two ports links them to each other, and every link that is left is mutual.
pub link_ports-IsMutual :
    (remotes : Remotes) (port remoteport : ℕ)
    → IsMutual remotes
    → IsMutual (link_ports remotes port remoteport)
      × ((link_ports remotes port remoteport port ≡ some remoteport)
          × (link_ports remotes port remoteport remoteport ≡ some port))
unfolding link_ports
link_ports-IsMutual remotes port remoteport back =
    ((λ a b h. linked-back remotes port remoteport back a b h), (ground arith, ground arith))
