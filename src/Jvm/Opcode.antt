-- ===== src/Jvm/Opcode.antt =====
-- java-virtual-machine/jvm.h: the opcodes (`jvm_instruction_t`).
use computer_systems.Prelude.{ℕ}

abbrev pub i_nop : ℕ
i_nop = 0x0

abbrev pub i_iconst_m1 : ℕ
i_iconst_m1 = 0x2

abbrev pub i_iconst_0 : ℕ
i_iconst_0 = 0x3

abbrev pub i_iconst_1 : ℕ
i_iconst_1 = 0x4

abbrev pub i_iconst_2 : ℕ
i_iconst_2 = 0x5

abbrev pub i_iconst_3 : ℕ
i_iconst_3 = 0x6

abbrev pub i_iconst_4 : ℕ
i_iconst_4 = 0x7

abbrev pub i_iconst_5 : ℕ
i_iconst_5 = 0x8

abbrev pub i_bipush : ℕ
i_bipush = 0x10

abbrev pub i_sipush : ℕ
i_sipush = 0x11

abbrev pub i_ldc : ℕ
i_ldc = 0x12

abbrev pub i_iload : ℕ
i_iload = 0x15

abbrev pub i_aload : ℕ
i_aload = 0x19

abbrev pub i_iload_0 : ℕ
i_iload_0 = 0x1a

abbrev pub i_iload_1 : ℕ
i_iload_1 = 0x1b

abbrev pub i_iload_2 : ℕ
i_iload_2 = 0x1c

abbrev pub i_iload_3 : ℕ
i_iload_3 = 0x1d

abbrev pub i_aload_0 : ℕ
i_aload_0 = 0x2a

abbrev pub i_aload_1 : ℕ
i_aload_1 = 0x2b

abbrev pub i_aload_2 : ℕ
i_aload_2 = 0x2c

abbrev pub i_aload_3 : ℕ
i_aload_3 = 0x2d

abbrev pub i_iaload : ℕ
i_iaload = 0x2e

abbrev pub i_istore : ℕ
i_istore = 0x36

abbrev pub i_astore : ℕ
i_astore = 0x3a

abbrev pub i_istore_0 : ℕ
i_istore_0 = 0x3b

abbrev pub i_istore_1 : ℕ
i_istore_1 = 0x3c

abbrev pub i_istore_2 : ℕ
i_istore_2 = 0x3d

abbrev pub i_istore_3 : ℕ
i_istore_3 = 0x3e

abbrev pub i_astore_0 : ℕ
i_astore_0 = 0x4b

abbrev pub i_astore_1 : ℕ
i_astore_1 = 0x4c

abbrev pub i_astore_2 : ℕ
i_astore_2 = 0x4d

abbrev pub i_astore_3 : ℕ
i_astore_3 = 0x4e

abbrev pub i_iastore : ℕ
i_iastore = 0x4f

abbrev pub i_dup : ℕ
i_dup = 0x59

abbrev pub i_iadd : ℕ
i_iadd = 0x60

abbrev pub i_isub : ℕ
i_isub = 0x64

abbrev pub i_imul : ℕ
i_imul = 0x68

abbrev pub i_idiv : ℕ
i_idiv = 0x6c

abbrev pub i_irem : ℕ
i_irem = 0x70

abbrev pub i_ineg : ℕ
i_ineg = 0x74

abbrev pub i_ishl : ℕ
i_ishl = 0x78

abbrev pub i_ishr : ℕ
i_ishr = 0x7a

abbrev pub i_iushr : ℕ
i_iushr = 0x7c

abbrev pub i_iand : ℕ
i_iand = 0x7e

abbrev pub i_ior : ℕ
i_ior = 0x80

abbrev pub i_ixor : ℕ
i_ixor = 0x82

abbrev pub i_iinc : ℕ
i_iinc = 0x84

abbrev pub i_ifeq : ℕ
i_ifeq = 0x99

abbrev pub i_ifne : ℕ
i_ifne = 0x9a

abbrev pub i_iflt : ℕ
i_iflt = 0x9b

abbrev pub i_ifge : ℕ
i_ifge = 0x9c

abbrev pub i_ifgt : ℕ
i_ifgt = 0x9d

abbrev pub i_ifle : ℕ
i_ifle = 0x9e

abbrev pub i_if_icmpeq : ℕ
i_if_icmpeq = 0x9f

abbrev pub i_if_icmpne : ℕ
i_if_icmpne = 0xa0

abbrev pub i_if_icmplt : ℕ
i_if_icmplt = 0xa1

abbrev pub i_if_icmpge : ℕ
i_if_icmpge = 0xa2

abbrev pub i_if_icmpgt : ℕ
i_if_icmpgt = 0xa3

abbrev pub i_if_icmple : ℕ
i_if_icmple = 0xa4

abbrev pub i_goto : ℕ
i_goto = 0xa7

abbrev pub i_ireturn : ℕ
i_ireturn = 0xac

abbrev pub i_areturn : ℕ
i_areturn = 0xb0

abbrev pub i_return : ℕ
i_return = 0xb1

abbrev pub i_getstatic : ℕ
i_getstatic = 0xb2

abbrev pub i_invokevirtual : ℕ
i_invokevirtual = 0xb6

abbrev pub i_invokestatic : ℕ
i_invokestatic = 0xb8

abbrev pub i_newarray : ℕ
i_newarray = 0xbc

abbrev pub i_arraylength : ℕ
i_arraylength = 0xbe
