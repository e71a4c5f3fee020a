-- ===== src/Packet/Icmp.antt =====
-- The ICMP packets that icmp_send_packet of 06-router/icmp.c makes.
use computer_net_ucas.Common.{
  ℕ, zero, suc, ◌+◌, ◌-◌, ◌*◌, ◌%◌, ◌≤◌, ◌<◌, ◌≡◌, refl, ap, ◌∙◌, List, [], ◌∷◌, ◌++◌, length, take,
  drop, arith,
}
use computer_net_ucas.Word.{u32_mod, htonl-htonl}
use computer_net_ucas.Checksum.Ones.{true_sum, checksum_lem}
use computer_net_ucas.Packet.{
  Iface, IpPacket, ip_hdr_size, ip_bytes, ip_init_hdr, icmp_body, icmp_message, icmp_send_packet,
  icmp_echoreply,
}

take-all : (n : ℕ) (xs ys : List ℕ) → length xs ≡ n → take n (xs ++ ys) ≡ xs
take-all zero [] [] e = refl
take-all zero [] (y ∷ ys) e = refl
take-all zero (x ∷ xs) ys e = absurd (omega arith)
take-all (suc n) [] ys e = absurd (omega arith)
take-all (suc n) (x ∷ xs) ys e = ap (λ t. x ∷ t) (take-all n xs ys (omega arith))

take-over : (n : ℕ) (xs : List ℕ) → length xs ≤ n → take n xs ≡ xs
take-over zero [] h = refl
take-over zero (x ∷ xs) h = absurd (omega arith)
take-over (suc n) [] h = refl
take-over (suc n) (x ∷ xs) h = ap (λ t. x ∷ t) (take-over n xs (omega arith))

-- The sum over the ICMP message of every packet that `icmp_send_packet` makes is a multiple of 2 ^
-- 16 - 1, as its receiver checks, when the sum without the checksum is below 2 ^ 32.
pub icmp_send_packet-true_sum :
    (rand : ℕ) (junk : List ℕ) (iface : Iface) (p : IpPacket) (type code : ℕ)
    → true_sum (icmp_message type code 0 (icmp_body junk p type)) < u32_mod
    → true_sum (icmp_send_packet rand junk iface p type code).rest % 65535 ≡ 0
unfolding icmp_send_packet ip_init_hdr
icmp_send_packet-true_sum rand junk iface p type code small =
    omega (arith, checksum_lem (icmp_message type code 0 (icmp_body junk p type)) 0 (omega arith))

echo_body-lem :
    (hdr : ℕ) (bytes junk xs : List ℕ)
    → hdr ≡ 20
    → drop 24 bytes ≡ xs
    → length bytes ≡ 24 + length xs
    → take
        (length bytes - hdr - 4)
        (take (length bytes + 16 - 2 * hdr) (drop (hdr + 4) bytes) ++ junk)
      ≡ xs
echo_body-lem hdr bytes junk xs plain dropped size =
    ap
      (λ h.
        take (length bytes - h - 4) (take (length bytes + 16 - 2 * h) (drop (h + 4) bytes) ++ junk))
      plain
    ∙ ap (λ z. take (length bytes - 20 - 4) (z ++ junk))
        (ap (take (length bytes + 16 - 2 * 20)) dropped
          ∙ take-over (length bytes + 16 - 2 * 20) xs (omega arith))
    ∙ take-all (length bytes - 20 - 4) xs junk (omega arith)

-- The reply to an echo request without IP options goes back to where the request came from, and
-- carries its identifier, sequence number and data.
pub icmp_send_packet_echo :
    (rand : ℕ) (junk : List ℕ) (iface : Iface) (p : IpPacket) (t c s1 s2 : ℕ) (xs : List ℕ)
    → ip_hdr_size p ≡ 20
    → p.rest ≡ t ∷ c ∷ s1 ∷ s2 ∷ xs
    → p.saddr < u32_mod
    → (let q : IpPacket = icmp_send_packet rand junk iface p icmp_echoreply 0 in
        (drop 4 q.rest ≡ xs) × (q.daddr ≡ p.saddr) × (q.ether_dhost ≡ p.ether_shost))
unfolding icmp_send_packet ip_init_hdr icmp_body
icmp_send_packet_echo rand junk iface p t c s1 s2 xs plain request word = (
  echo_body-lem (ip_hdr_size p) (ip_bytes p p.ip_sum) junk xs plain (ap (drop 4) request)
      (omega (arith, ap length request)),
  htonl-htonl p.saddr word,
  refl,
)
