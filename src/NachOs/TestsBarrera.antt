-- ===== src/NachOs/TestsBarrera.antt =====
-- `Barrier` of nachOS/code/threads/synch.cc for one thread, which goes all the way through `Wait`.
use server_load_balancer_cli.Prelude.{◌≤◌, refl, none, [], ◌∷◌, arith}
use server_load_balancer_cli.Prelude.Int.{pos, ◌-ℤ◌}
use server_load_balancer_cli.NachOs.Synch.{
  cierra, intenta, abre, suelta, termina, mutex_lock, esperar, mutex_unlock, soltar, borrar,
}
use server_load_balancer_cli.NachOs.Barrera.{
  Barrera, barrera_nueva, aqui, y_paso, en_contador, en_barrera, lee, guarda, ve, sale, pasa,
  llegados,
}
use server_load_balancer_cli.NachOs.Reunion.{LlegaBarrera-pasa}

abbrev para_uno : Barrera
para_uno = barrera_nueva none none 1 1

LlegaBarrera-pasa_example : 1 ≤ llegados (pasa ∷ [])
unfolding mutex_lock esperar mutex_unlock soltar borrar ◌-ℤ◌
LlegaBarrera-pasa_example =
    LlegaBarrera-pasa none none 1 1 0
      (y_paso
        (y_paso
          (y_paso
            (y_paso
              (y_paso
                (y_paso
                  (y_paso
                    (y_paso
                      (y_paso
                        (y_paso
                          (y_paso
                            (y_paso
                              (y_paso (y_paso aqui (en_contador _ (cierra _ 0 refl) refl))
                                (en_contador _ (intenta _ 0 refl) tt))
                              (lee _ 0 refl refl))
                            (guarda _ 0 _ refl))
                          (en_contador _ (abre _ 0 refl) refl))
                        (en_contador _ (suelta _ 0 refl) tt))
                      (en_contador _ (termina _ 0 refl) tt))
                    (en_barrera _ (cierra _ 0 refl) (refl, refl)))
                  (en_barrera _ (intenta _ 0 refl) tt))
                (ve _ 0 refl refl))
              (en_barrera _ (abre _ 0 refl) (_, refl)))
            (en_barrera _ (suelta _ 0 refl) tt))
          (en_barrera _ (termina _ 0 refl) tt))
        (sale _ 0 (pos 0) refl refl (omega arith)))
      refl
