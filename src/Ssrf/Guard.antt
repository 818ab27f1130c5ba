-- ===== src/Ssrf/Guard.antt =====
-- What the URL checks of src/ssrf.rs let through.
use browser_headless.Base.{
  ℕ, ◌≡◌, refl, ◌↔◌, inl, inr, false, some, List, [], ◌∷◌, ◌++◌, arith, All, Text, codes, show_ℕ,
  unwrap_or, Result, ok, Result-cases, Option-cases, ok-injective, err-ne-ok, sym, subst,
}
use browser_headless.Ssrf.{
  IpAddr, v4, v6, Host, ipv4, ipv6, domain, Net, is_blocked_ip, is_blocked_ipv4, is_blocked_ipv6,
  check_addrs, check_host, check_url,
}

module _ {Url : Type 0} (net : Net Url) where
  -- The addresses that a host stands for: itself if it is a literal, or what the resolver answers.
  pub addresses : Host → ℕ → Result (List IpAddr) Text
  addresses (ipv4 ip) port = ok (v4 ip ∷ [])
  addresses (ipv6 ip) port = ok (v6 ip ∷ [])
  addresses (domain name) port = net.lookup_host (name ++ (codes ":" ++ show_ℕ port))

  abbrev pub IsPublic : IpAddr → Type 0
  IsPublic ip = is_blocked_ip ip ≡ false

  -- Every address that a connection to the URL may use is known and none is blocked.
  abbrev pub IsReachable : Url → Type 0
  IsReachable url =
      (host : Host) × (addrs : List IpAddr) × (net.host url ≡ some host)
      × (addresses host (unwrap_or (net.port_or_known_default url) 80) ≡ ok addrs)
      × All IsPublic addrs

  check_addrs_iff :
      (name : Text) (addrs : List IpAddr)
      → (check_addrs net name addrs ≡ ok tt) ↔ All IsPublic addrs
  unfolding check_addrs
  check_addrs_iff name [] = (λ _. tt, λ _. refl)
  check_addrs_iff name (addr ∷ rest) = (
    λ e. (ground arith, (check_addrs_iff name rest).0 (ground arith)),
    λ h. ground (arith, (check_addrs_iff name rest).1 h.1),
  )

  check_host_sound :
      (host : Host) (port : ℕ)
      → check_host net host port ≡ ok tt
      → (addrs : List IpAddr) × (addresses host port ≡ ok addrs) × All IsPublic addrs
  unfolding check_host addresses is_blocked_ip
  check_host_sound (ipv4 ip) port e = (v4 ip ∷ [], refl, (ground arith, tt))
  check_host_sound (ipv6 ip) port e = (v6 ip ∷ [], refl, (ground arith, tt))
  check_host_sound (domain name) port e =
      elim (Result-cases (net.lookup_host (name ++ (codes ":" ++ show_ℕ port)))) [
        | inl (addrs, f) ↦ (addrs, f, (check_addrs_iff name addrs).0 (rw f at e))
        | inr (m, f) ↦ absurd (err-ne-ok (rw f at e))
      ]

  check_host_complete :
      (host : Host) (port : ℕ) (addrs : List IpAddr)
      → addresses host port ≡ ok addrs
      → All IsPublic addrs
      → check_host net host port ≡ ok tt
  unfolding check_host addresses is_blocked_ip
  check_host_complete (ipv4 ip) port addrs f h =
      let clear : is_blocked_ipv4 ip ≡ false = (subst (All IsPublic) (sym (ok-injective f)) h).0 in
      rw clear
  check_host_complete (ipv6 ip) port addrs f h =
      let clear : is_blocked_ipv6 ip ≡ false = (subst (All IsPublic) (sym (ok-injective f)) h).0 in
      rw clear
  check_host_complete (domain name) port addrs f h = rw f ((check_addrs_iff name addrs).1 h)

  -- The check passes exactly if the URL has a host, its addresses are known (a literal, or an answer
  -- of the resolver), and none of them is blocked.
  pub check_url_iff : (url : Url) → (check_url net url ≡ ok tt) ↔ IsReachable url
  unfolding check_url
  check_url_iff url = (sound, complete)
    where
      sound : check_url net url ≡ ok tt → IsReachable url
      sound e = elim (Option-cases (net.host url)) [
        | inl f ↦ absurd (err-ne-ok (rw (f, check_url) at e))
        | inr (host, f) ↦
            let (addrs, g, h) = check_host_sound host _ (rw (f, check_url) at e) in
            (host, addrs, f, g, h)
      ]

      complete : IsReachable url → check_url net url ≡ ok tt
      complete (host, addrs, f, g, h) = rw (f, check_url) (check_host_complete host _ addrs g h)
