-- ===== src/Remote/Start/Ports.antt =====
-- The addresses of lab08: the client's argument against the server's.
use osi_s.Prelude.{
  ℕ, ◌-◌, ◌≤◌, ◌<◌, ◌≡◌, refl, ap, ◌∙◌, Bool, true, false, Option, none, some, [], ◌∷◌, ◌++◌, arith,
  length, take, length-append, Text, has, take_all, take-append, scan_number,
}
use osi_s.Remote.Start.{
  low_16, port_of, ServerCalls, Server, load, server_main, strchr, address_at, parse_address,
  ClientCalls, Client, connecting, client_main,
}

strchr-append : (c : ℕ) (a b : Text) → has c a ≡ false → strchr c (a ++ (c ∷ b)) ≡ some (c ∷ b)
unfolding strchr has
strchr-append c [] b h = ground arith
strchr-append c (d ∷ a) b h = ground (arith, strchr-append c a b)

-- "ip:port" is taken apart at the first colon.
parse_address-append :
    (ip number : Text)
    → has b':' ip ≡ false
    → length ip ≤ 15
    → parse_address (ip ++ (b':' ∷ number)) ≡ some (ip, port_of number)
unfolding parse_address
parse_address-append ip number h k =
    let text = ip ++ (b':' ∷ number) in
    let size : length text - length (b':' ∷ number) ≡ length ip =
      omega (arith, length-append ip (b':' ∷ number)) in
    ap (address_at text) (strchr-append b':' ip number h)
    ∙ ap (λ n. some (take 15 (take n text), port_of number)) size
    ∙ ap (λ t. some (take 15 t, port_of number)) (take-append (length ip) ip (b':' ∷ number) refl)
    ∙ ap (λ t. some (t, port_of number)) (take_all 15 ip k)

low_16_small : (o : Option (Bool × ℕ)) → low_16 o < 65536
low_16_small none = omega arith
low_16_small (some (false, n)) = omega arith
low_16_small (some (true, n)) = omega arith

port_of_small : (number : Text) → port_of number < 65536
unfolding port_of
port_of_small number = low_16_small (scan_number number)

-- A client that is given "ip:port" reaches for the port at which a server started with the same digits
-- listens, whatever the number is, if the calls of both succeed and the address fits its array.
client_main-server_main :
    (C : ClientCalls) (S : ServerCalls) (server client root ip number : Text)
    → has b':' ip ≡ false
    → length ip ≤ 15
    → C.socket ≡ true
    → C.inet_pton ip ≡ true
    → C.connect ip (port_of number) ≡ true
    → C.fdopen ≡ true
    → S.chdir root ≡ true
    → S.socket ≡ true
    → S.bind (port_of number) ≡ true
    → S.listen ≡ true
    → (port : ℕ) × (port < 65536)
      × (server_main S (server ∷ root ∷ number ∷ []) ≡ Server.listening port (load S root))
      × (client_main C (client ∷ (ip ++ (b':' ∷ number)) ∷ []) ≡ Client.connected ip port)
unfolding server_main client_main connecting
client_main-server_main C S server client root ip number h k c1 c2 c3 c4 s1 s2 s3 s4 = (
  port_of number,
  port_of_small number,
  rw (s1, s2, s3, s4) refl,
  rw (parse_address-append ip number h k, c1, c2, c3, c4) refl,
)
