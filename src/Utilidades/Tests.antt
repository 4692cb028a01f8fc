-- ===== src/Utilidades/Tests.antt =====
-- The theorems on src/Utilidades.cpp at concrete texts.
use server_load_balancer_cli.Prelude.{ℕ, ◌≡◌, refl, ◌⊎◌, ◌↔◌, some, ◌++◌, drop, arith}
use server_load_balancer_cli.Prelude.Text.{codes, find}
use server_load_balancer_cli.Utilidades.{split, extraer_valor_header, direccion_broadcast}
use server_load_balancer_cli.Utilidades.Split.{terminados, split_text}
use server_load_balancer_cli.Utilidades.Header.{hasta_fin, extraer_valor_header_lem}
use server_load_balancer_cli.Utilidades.Red.{broadcast_real, direccion_broadcast_iff}

split_text_example :
    (terminados (codes " ") (split (codes "GET / HTTP/1.1") (codes " ") 3) ≡ codes "GET / HTTP/1.1")
    ⊎ (terminados (codes " ") (split (codes "GET / HTTP/1.1") (codes " ") 3)
        ≡ codes "GET / HTTP/1.1" ++ codes " ")
split_text_example = split_text (codes "GET / HTTP/1.1") (codes " ") 3

en_host : find (codes "Host: a;b") (codes "ost: ") ≡ some 1
unfolding find
en_host = refl

extraer_valor_header_lem_example :
    extraer_valor_header (codes "Host: a;b") (codes "ost: ")
    ≡ hasta_fin (drop 6 (codes "Host: a;b"))
extraer_valor_header_lem_example =
    extraer_valor_header_lem (codes "Host: a;b") (codes "ost: ") 1 (omega arith) en_host

direccion_broadcast_iff_example :
    (direccion_broadcast 3232235786 28 ≡ some (broadcast_real 3232235786 28))
    ↔ ((◌≡◌ {A = ℕ} 28 28) ⊎ (◌≡◌ {A = ℕ} 28 30))
direccion_broadcast_iff_example =
    direccion_broadcast_iff 3232235786 28 (omega arith) (omega arith) (omega arith)
