-- ===== src/Socks/Conn.antt =====
-- A connection as the handshakes see it (`net.Conn`, `io.ReadFull`): the bytes that will arrive, the
-- bytes sent so far, and the number of writes that still succeed. Errors carry no text.
use mihomo_extension_sidecar.Common.{
  ◌⊎◌, inl, inr, refl, ℕ, zero, suc, ◌≡◌, Bool, true, false, List, ◌++◌, Bytes, length, take, drop,
  ltb, if◌then◌else◌,
}

pub data SocksError : Type 0 where
  short_read write_failed bad_greeting no_method bad_auth_header empty_password : SocksError
  bad_credentials bad_request_header empty_domain port_range domain_length domain_colon : SocksError
  bad_packet packet_too_large credential_length auth_rejected auth_failed bad_reply
        unexpected_address :
      SocksError
  unsupported_type reply_status : ℕ → SocksError

pub data Reply {ℓ} (A : Type ℓ) : Type ℓ where
  ok : A → Reply A
  err : SocksError → Reply A

pub record Conn : Type 0 where
  pub inbox : Bytes
  pub sent : Bytes
  pub writes : ℕ

abbrev pub S : Type 0 → Type 0
S A = Conn → Reply A × Conn

infixl 5 ◌>>=◌ ◌>>◌
abbrev pub ◌>>=◌ : {A B : Type 0} → S A → (A → S B) → S B
◌>>=◌ m f c = elim (m c).0 [ ok a ↦ f a (m c).1 | err e ↦ (err e, (m c).1) ]

abbrev pub ◌>>◌ : {B : Type 0} → S (Unit {0}) → S B → S B
m >> k = m >>= λ _. k

abbrev pub pure : {A : Type 0} → A → S A
pure a c = (ok a, c)

abbrev pub fail : {A : Type 0} → SocksError → S A
fail e c = (err e, c)

-- `if bad { return errors.New(...) }`
abbrev pub check : Bool → SocksError → S (Unit {0})
check true e = pure tt
check false e = fail e

-- `io.ReadFull` of `n` bytes; what a short read took is gone.
unfoldable pub read_full : ℕ → S Bytes
read_full n c =
    if ltb (length c.inbox) n
    then (err short_read, record c { inbox = List.[] })
    else (ok (take n c.inbox), record c { inbox = drop n c.inbox })

write_left : ℕ → Bytes → S (Unit {0})
write_left zero out c = (err write_failed, c)
write_left (suc n) out c = (ok tt, record c { sent = c.sent ++ out; writes = n })

-- `conn.Write`
unfoldable pub write : Bytes → S (Unit {0})
unfolding write_left
write out c = write_left c.writes out c

pub Reply-cases {ℓ} :
    {A : Type ℓ} (x : Reply A) → ((a : A) × (x ≡ ok a)) ⊎ ((e : SocksError) × (x ≡ err e))
Reply-cases (ok a) = inl (a, refl)
Reply-cases (err e) = inr (e, refl)
