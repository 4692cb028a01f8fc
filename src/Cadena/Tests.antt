-- ===== src/Cadena/Tests.antt =====
-- The theorem on a request's way, for a network that gives the answer byte by byte.
use server_load_balancer_cli.Prelude.Text.{Bytes, codes}

abbrev pregunta : Bytes
pregunta = codes "GET / HTTP/1.1\r\nhost: www\r\n\r\n"
