-- ===== src/Prueba/UnArchivo.antt =====
-- A disk of one file that every path opens, for the tests on downloads.
use server_load_balancer_cli.Prelude.{
  ℕ, zero, suc, ◌≡◌, refl, true, false, none, some, [], ◌∷◌, ◌++◌, length, take, drop, ◌+◌, arith,
}
use server_load_balancer_cli.Prelude.Int.{pos}
use server_load_balancer_cli.Prelude.Text.{Bytes}
use server_load_balancer_cli.FileSystem.Llamadas.{Sistema, Regulares}
use server_load_balancer_cli.FileSystem.Escritura.{Escribibles}
use server_load_balancer_cli.WebCliente.{Opciones}

-- Every path is the one file that the disk is.
abbrev pub un_archivo : Sistema
un_archivo = record {
  Disco = Bytes;
  Fd = Unit {0};
  opendir = λ d. λ ruta. some [];
  abrir = λ d. λ ruta. some tt;
  stat = λ d. λ ruta. some (record { size = length d; mtim = 0 });
  pread = λ d. λ fd. λ p. λ n. some (take n (drop p d));
  pwrite = λ d.
      λ fd. λ p. λ datos. (take p d ++ (datos ++ drop (p + length datos) d), pos (length datos));
  mkdir = λ d. λ ruta. none;
  fopen = λ d. λ ruta. some [];
}

abbrev pub regular : Regulares un_archivo
regular = record {
  contenido = λ d. λ fd. d;
  pread_lem = λ d. λ fd. λ p. λ n. refl;
  stat_lem = λ d. λ ruta. λ fd. λ h. (record { size = length d; mtim = 0 }, refl, refl);
}

abbrev pub escribible : Escribibles un_archivo regular
escribible = record {
  pwrite_lem =
      λ d. λ fd. λ p. λ datos. λ h. (take p d ++ (datos ++ drop (p + length datos) d), refl, refl);
}

unfoldable pub ceros_de : ℕ → Bytes
ceros_de zero = []
ceros_de (suc n) = 0 ∷ ceros_de n

pub length-ceros_de : (n : ℕ) → length (ceros_de n) ≡ n
unfolding ceros_de
length-ceros_de zero = omega arith
length-ceros_de (suc n) = omega (arith, length-ceros_de n)

-- The flags of a client that downloads.
abbrev pub bajable : Opciones
bajable = record {
  mostrar_header = false;
  descargable = true;
  bad_request_test = false;
  bad_html_version = false;
  more_than_headers = true;
  ip_argv_pos = some 1;
}
