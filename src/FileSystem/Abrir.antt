-- ===== src/FileSystem/Abrir.antt =====
-- What `setRuta` (src/FileSystem.cpp) leaves in the object.
use server_load_balancer_cli.Prelude.{
  ◌-◌, ◌<◌, ◌^◌, ◌≡◌, ◌≢◌, refl, ◌⊎◌, inl, inr, some, List, [], ◌++◌, length, arith, Option-cases,
  ◌>>=◌,
}
use server_load_balancer_cli.Prelude.Int.{pos, int32, int32_small}
use server_load_balancer_cli.Prelude.Text.{Bytes}
use server_load_balancer_cli.FileSystem.Llamadas.{Sistema, Regulares}
use server_load_balancer_cli.FileSystem.Ruta.{partir_ruta_lem, normalizar-none_iff}
use server_load_balancer_cli.FileSystem.Lectura.{Leyendo}
use server_load_balancer_cli.FileSystem.{
  FileSystem, Partes, barra, normalizar, partir_ruta, abrir_ruta, set_ruta, get_informacion_archivo,
}

module _ (s : Sistema) (d : s.Disco) where
  -- The object with the names of a path.
  unfoldable pub nombrado : FileSystem s.Fd → Partes → FileSystem s.Fd
  nombrado fs p = record fs {
    directorios = p.segmentos_ruta;
    ruta_directorios = p.ruta_directorios;
    nombre_archivo = p.nombre_archivo;
  }

  -- The object has the names of the parts and the stream of their directory.
  pub record IsAbierto (fs : FileSystem s.Fd) (p : Partes) : Type 0 where
    pub ruta_directorios_eq : fs.ruta_directorios ≡ p.ruta_directorios
    pub nombre_archivo_eq : fs.nombre_archivo ≡ p.nombre_archivo
    pub directorio_eq : fs.directorio ≡ s.opendir d p.ruta_directorios

  pub abrir_ruta-IsAbierto :
      (fs : FileSystem s.Fd) (p : Partes) → IsAbierto (abrir_ruta s d (nombrado fs p)) p
  unfolding abrir_ruta nombrado get_informacion_archivo
  abrir_ruta-IsAbierto fs p = record {
    ruta_directorios_eq = ground arith;
    nombre_archivo_eq = ground arith;
    directorio_eq = ground arith;
  }

  -- `setRuta` computes on every path that is neither empty nor a separator alone.
  pub set_ruta_total :
      (fs : FileSystem s.Fd) (ruta : Bytes)
      → ruta ≢ []
      → ruta ≢ barra
      → (p : Partes) × (fs' : FileSystem s.Fd) × (partir_ruta ruta ≡ some p)
        × (set_ruta s d fs ruta ≡ some fs')
        × IsAbierto fs' p
        × (fs' ≡ abrir_ruta s d (nombrado fs p))
  unfolding nombrado
  set_ruta_total fs ruta a b = elim (Option-cases (normalizar ruta)) [
    | inl e ↦ absurd (no_vacia ((normalizar-none_iff ruta).0 e))
    | inr (c, e) ↦
        let (p, q, _, _, _) = partir_ruta_lem ruta c e in
        (
          p,
          abrir_ruta s d (nombrado fs p),
          q,
          unfold set_ruta in rw (q, ◌>>=◌),
          abrir_ruta-IsAbierto fs p,
          refl,
        )
  ]
    where
      no_vacia : (ruta ≡ []) ⊎ (ruta ≡ barra) → ⊥
      no_vacia (inl e) = a e
      no_vacia (inr e) = b e

  module _ (r : Regulares s) where
    -- If the file opens, its first byte is the next one to read.
    pub abrir_ruta-Leyendo :
        (fs : FileSystem s.Fd) (p : Partes) (es : List Bytes) (fd : s.Fd)
        → s.opendir d p.ruta_directorios ≡ some es
        → s.abrir d (p.ruta_directorios ++ p.nombre_archivo) ≡ some fd
        → length (r.contenido d fd) < 2 ^ 31
        → Leyendo s r d fd (abrir_ruta s d (nombrado fs p)) 0
    unfolding abrir_ruta nombrado get_informacion_archivo
    abrir_ruta-Leyendo fs p es fd o a h =
        let (st, q, n) = r.stat_lem d (p.ruta_directorios ++ p.nombre_archivo) fd a in
        let chico : int32 st.size ≡ pos st.size = int32_small st.size (omega arith) in
        let todo : st.size ≡ length (r.contenido d fd) - 0 = omega arith in
        record {
          abierto = ground arith;
          tamano = ground arith;
          dentro = omega arith;
          faltan = inl (ground (arith, chico, todo));
        }
