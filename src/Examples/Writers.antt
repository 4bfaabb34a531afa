-- ===== src/Examples/Writers.antt =====
-- A writer in use.
use pgais.Base.{List, [], ◌∷◌, ◌≡◌, arith, true, codes}
use pgais.Base.Int.{negsuc}
use pgais.Bitfield.Writer.{new_writer}
use pgais.Bitfield.Session.{
  Operation, put_uint, put_int, put_bool, put_text, put_bits, get_uint, get_int, get_bool, get_text,
  get_bits, perform_all, promise_all,
}
use pgais.Bitfield.Refinement.{perform_all-refines}

-- Among the calls are a width of 65, a short source and a read past the end.
abbrev calls : List Operation
calls =
    put_uint 5 6
    ∷ put_int (negsuc 2) 7
    ∷ put_uint 1 65
    ∷ get_int 6 7
    ∷ put_bool true
    ∷ put_text (codes "HI") 3
    ∷ put_bits (0xa5 ∷ []) 9
    ∷ put_bits (0xa5 ∷ []) 8
    ∷ get_text 14 3
    ∷ get_bool 13
    ∷ get_uint 40 9
    ∷ get_bits 13 13
    ∷ get_bits 0 65
    ∷ []

perform_all-refines_example : perform_all calls new_writer ≡ promise_all calls []
perform_all-refines_example =
    perform_all-refines calls
      (
        tt,
        (
          tt,
          (
            tt,
            (
              omega arith,
              (
                tt,
                (
                  tt,
                  (
                    tt,
                    (
                      tt,
                      (omega arith, (omega arith, (omega arith, (omega arith, (omega arith, tt))))),
                    ),
                  ),
                ),
              ),
            ),
          ),
        ),
      )
      (omega arith)
