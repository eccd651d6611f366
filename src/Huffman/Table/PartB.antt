-- ===== src/Huffman/Table/PartB.antt =====
-- Statements of `Huff_InitTree` of src/huffman.c, from line 726 to line 1305.
use co_d4x_client_pub.Common.{List, [], ◌∷◌}
use co_d4x_client_pub.Huffman.Table.{
  Step, Step.left_to, Step.name, Step.parent_left, Step.parent_right, Step.parent_to, Step.right_to,
  Step.weigh,
}

abbrev pub steps5 : List Step
steps5 =
    parent_to 16 432
    ∷ weigh 16 15256
    ∷ name 16 15
    ∷ left_to 462 421
    ∷ parent_to 17 421
    ∷ weigh 17 13184
    ∷ name 17 16
    ∷ left_to 467 429
    ∷ parent_to 18 429
    ∷ weigh 18 14319
    ∷ name 18 17
    ∷ left_to 435 369
    ∷ parent_to 19 369
    ∷ weigh 19 7750
    ∷ name 19 18
    ∷ right_to 430 363
    ∷ parent_to 20 363
    ∷ weigh 20 7221
    ∷ name 20 19
    ∷ left_to 414 340
    ∷ parent_to 21 340
    ∷ weigh 21 6095
    ∷ name 21 20
    ∷ right_to 406 330
    ∷ parent_to 22 330
    ∷ weigh 22 5666
    ∷ name 22 21
    ∷ left_to 460 417
    ∷ parent_to 23 417
    ∷ weigh 23 12606
    ∷ name 23 22
    ∷ parent_to 24 363
    ∷ weigh 24 7263
    ∷ name 24 23
    ∷ left_to 431 364
    ∷ parent_to 25 364
    ∷ weigh 25 7322
    ∷ name 25 24
    ∷ left_to 409 333
    ∷ parent_to 26 333
    ∷ weigh 26 5807
    ∷ name 26 25
    ∷ right_to 455 408
    ∷ parent_to 27 408
    ∷ weigh 27 11628
    ∷ name 27 26
    ∷ right_to 416 344
    ∷ parent_to 28 344
    ∷ weigh 28 6199
    ∷ name 28 27
    ∷ left_to 436 371
    ∷ parent_to 29 371
    ∷ weigh 29 7826
    ∷ name 29 28
    ∷ right_to 418 347
    ∷ parent_to 30 347
    ∷ weigh 30 6349
    ∷ name 30 29
    ∷ left_to 434 368
    ∷ parent_to 31 368
    ∷ weigh 31 7698
    ∷ name 31 30
    ∷ right_to 448 394
    ∷ parent_to 32 394
    ∷ weigh 32 9656
    ∷ name 32 31
    ∷ left_to 490 468
    ∷ parent_to 33 468
    ∷ weigh 33 28968
    ∷ name 33 32
    ∷ right_to 399 321
    ∷ parent_to 34 321
    ∷ weigh 34 5164
    ∷ name 34 33
    ∷ right_to 463 423
    ∷ parent_to 35 423
    ∷ weigh 35 13629
    ∷ name 35 34
    ∷ parent_left 36 414
    ∷ weigh 36 6058
    ∷ name 36 35
    ∷ right_to 392 312
    ∷ parent_to 37 312
    ∷ weigh 37 4745
    ∷ name 37 36
    ∷ left_to 385 303
    ∷ parent_to 38 303
    ∷ weigh 38 4519
    ∷ name 38 37
    ∷ left_to 400 322
    ∷ parent_to 39 322
    ∷ weigh 39 5199
    ∷ name 39 38
    ∷ left_to 393 313
    ∷ parent_to 40 313
    ∷ weigh 40 4807
    ∷ name 40 39
    ∷ right_to 402 326
    ∷ parent_to 41 326
    ∷ weigh 41 5323
    ∷ name 41 40
    ∷ left_to 355 275
    ∷ parent_to 42 275
    ∷ weigh 42 3433
    ∷ name 42 41
    ∷ right_to 355 276
    ∷ parent_to 43 276
    ∷ weigh 43 3455
    ∷ name 43 42
    ∷ right_to 360 282
    ∷ parent_to 44 282
    ∷ weigh 44 3563
    ∷ name 44 43
    ∷ left_to 426 357
    ∷ parent_to 45 357
    ∷ weigh 45 6979
    ∷ name 45 44
    ∷ left_to 401 324
    ∷ parent_to 46 324
    ∷ weigh 46 5229
    ∷ name 46 45
    ∷ right_to 398 320
    ∷ parent_to 47 320
    ∷ weigh 47 5002
    ∷ name 47 46
    ∷ left_to 382 300
    ∷ parent_to 48 300
    ∷ weigh 48 4423
    ∷ name 48 47
    ∷ left_to 466 427
    ∷ parent_to 49 427
    ∷ weigh 49 14108
    ∷ name 49 48
    ∷ left_to 464 424
    ∷ parent_to 50 424
    ∷ weigh 50 13631
    ∷ name 50 49
    ∷ left_to 457 411
    ∷ parent_to 51 411
    ∷ weigh 51 11908
    ∷ name 51 50
    ∷ parent_to 52 411
    ∷ weigh 52 11801
    ∷ name 52 51
    ∷ left_to 451 399
    ∷ []

abbrev pub steps6 : List Step
steps6 =
    parent_to 53 399
    ∷ weigh 53 10261
    ∷ name 53 52
    ∷ left_to 433 367
    ∷ parent_to 54 367
    ∷ weigh 54 7635
    ∷ name 54 53
    ∷ left_to 430 362
    ∷ parent_to 55 362
    ∷ weigh 55 7215
    ∷ name 55 54
    ∷ parent_to 56 362
    ∷ weigh 56 7218
    ∷ name 56 55
    ∷ left_to 446 389
    ∷ parent_to 57 389
    ∷ weigh 57 9353
    ∷ name 57 56
    ∷ right_to 415 343
    ∷ parent_to 58 343
    ∷ weigh 58 6161
    ∷ name 58 57
    ∷ left_to 407 331
    ∷ parent_to 59 331
    ∷ weigh 59 5689
    ∷ name 59 58
    ∷ left_to 388 308
    ∷ parent_to 60 308
    ∷ weigh 60 4649
    ∷ name 60 59
    ∷ parent_right 61 398
    ∷ weigh 61 5026
    ∷ name 61 60
    ∷ right_to 409 334
    ∷ parent_to 62 334
    ∷ weigh 62 5866
    ∷ name 62 61
    ∷ left_to 437 373
    ∷ parent_to 63 373
    ∷ weigh 63 8002
    ∷ name 63 62
    ∷ left_to 452 401
    ∷ parent_to 64 401
    ∷ weigh 64 10534
    ∷ name 64 63
    ∷ right_to 469 433
    ∷ parent_to 65 433
    ∷ weigh 65 15381
    ∷ name 65 64
    ∷ left_to 443 383
    ∷ parent_to 66 383
    ∷ weigh 66 8874
    ∷ name 66 65
    ∷ right_to 456 410
    ∷ parent_to 67 410
    ∷ weigh 67 11798
    ∷ name 67 66
    ∷ right_to 429 361
    ∷ parent_to 68 361
    ∷ weigh 68 7199
    ∷ name 68 67
    ∷ left_to 461 419
    ∷ parent_to 69 419
    ∷ weigh 69 12814
    ∷ name 69 68
    ∷ left_to 415 342
    ∷ parent_to 70 342
    ∷ weigh 70 6103
    ∷ name 70 69
    ∷ left_to 397 318
    ∷ parent_to 71 318
    ∷ weigh 71 4982
    ∷ name 71 70
    ∷ right_to 412 337
    ∷ parent_to 72 337
    ∷ weigh 72 5972
    ∷ name 72 71
    ∷ right_to 422 353
    ∷ parent_to 73 353
    ∷ weigh 73 6779
    ∷ name 73 72
    ∷ left_to 396 316
    ∷ parent_to 74 316
    ∷ weigh 74 4929
    ∷ name 74 73
    ∷ parent_right 75 402
    ∷ weigh 75 5333
    ∷ name 75 74
    ∷ left_to 358 279
    ∷ parent_to 76 279
    ∷ weigh 76 3503
    ∷ name 76 75
    ∷ left_to 381 299
    ∷ parent_to 77 299
    ∷ weigh 77 4345
    ∷ name 77 76
    ∷ right_to 414 341
    ∷ parent_to 78 341
    ∷ weigh 78 6098
    ∷ name 78 77
    ∷ parent_left 79 466
    ∷ weigh 79 14117
    ∷ name 79 78
    ∷ right_to 472 438
    ∷ parent_to 80 438
    ∷ weigh 80 16440
    ∷ name 80 79
    ∷ left_to 420 349
    ∷ parent_to 81 349
    ∷ weigh 81 6446
    ∷ name 81 80
    ∷ right_to 342 265
    ∷ parent_to 82 265
    ∷ weigh 82 3062
    ∷ name 82 81
    ∷ right_to 391 311
    ∷ parent_to 83 311
    ∷ weigh 83 4695
    ∷ name 83 82
    ∷ parent_to 84 265
    ∷ weigh 84 3085
    ∷ name 84 83
    ∷ left_to 378 296
    ∷ parent_to 85 296
    ∷ weigh 85 4198
    ∷ name 85 84
    ∷ left_to 374 291
    ∷ parent_to 86 291
    ∷ weigh 86 4013
    ∷ name 86 85
    ∷ left_to 370 287
    ∷ parent_to 87 287
    ∷ weigh 87 3878
    ∷ name 87 86
    ∷ right_to 354 274
    ∷ parent_to 88 274
    ∷ weigh 88 3414
    ∷ name 88 87
    ∷ right_to 404 328
    ∷ parent_to 89 328
    ∷ weigh 89 5514
    ∷ name 89 88
    ∷ left_to 375 292
    ∷ parent_to 90 292
    ∷ weigh 90 4092
    ∷ []

abbrev pub steps7 : List Step
steps7 =
    name 90 89
    ∷ right_to 349 269
    ∷ parent_to 91 269
    ∷ weigh 91 3261
    ∷ name 91 90
    ∷ parent_right 92 392
    ∷ weigh 92 4740
    ∷ name 92 91
    ∷ right_to 385 304
    ∷ parent_to 93 304
    ∷ weigh 93 4544
    ∷ name 93 92
    ∷ right_to 345 267
    ∷ parent_to 94 267
    ∷ weigh 94 3127
    ∷ name 94 93
    ∷ left_to 353 272
    ∷ parent_to 95 272
    ∷ weigh 95 3385
    ∷ name 95 94
    ∷ parent_left 96 433
    ∷ weigh 96 7688
    ∷ name 96 95
    ∷ left_to 454 405
    ∷ parent_to 97 405
    ∷ weigh 97 11126
    ∷ name 97 96
    ∷ right_to 419 348
    ∷ parent_to 98 348
    ∷ weigh 98 6417
    ∷ name 98 97
    ∷ left_to 402 325
    ∷ parent_to 99 325
    ∷ weigh 99 5297
    ∷ name 99 98
    ∷ parent_left 100 385
    ∷ weigh 100 4529
    ∷ name 100 99
    ∷ left_to 418 346
    ∷ parent_to 101 346
    ∷ weigh 101 6333
    ∷ name 101 100
    ∷ parent_left 102 378
    ∷ weigh 102 4210
    ∷ name 102 101
    ∷ left_to 428 359
    ∷ parent_to 103 359
    ∷ weigh 103 7056
    ∷ name 103 102
    ∷ parent_left 104 388
    ∷ weigh 104 4658
    ∷ name 104 103
    ∷ parent_right 105 415
    ∷ weigh 105 6190
    ∷ name 105 104
    ∷ parent_left 106 358
    ∷ weigh 106 3512
    ∷ name 106 105
    ∷ left_to 329 260
    ∷ parent_to 107 260
    ∷ weigh 107 2843
    ∷ name 107 106
    ∷ left_to 357 278
    ∷ parent_to 108 278
    ∷ weigh 108 3479
    ∷ name 108 107
    ∷ left_to 447 391
    ∷ parent_to 109 391
    ∷ weigh 109 9369
    ∷ name 109 108
    ∷ right_to 400 323
    ∷ parent_to 110 323
    ∷ weigh 110 5203
    ∷ name 110 109
    ∷ right_to 396 317
    ∷ parent_to 111 317
    ∷ weigh 111 4980
    ∷ name 111 110
    ∷ left_to 410 335
    ∷ parent_to 112 335
    ∷ weigh 112 5881
    ∷ name 112 111
    ∷ right_to 431 365
    ∷ parent_to 113 365
    ∷ weigh 113 7509
    ∷ name 113 112
    ∷ right_to 378 297
    ∷ parent_to 114 297
    ∷ weigh 114 4292
    ∷ name 114 113
    ∷ parent_right 115 414
    ∷ weigh 115 6097
    ∷ name 115 114
    ∷ parent_right 116 404
    ∷ weigh 116 5492
    ∷ name 116 115
    ∷ right_to 387 307
    ∷ parent_to 117 307
    ∷ weigh 117 4648
    ∷ name 117 116
    ∷ left_to 338 264
    ∷ parent_to 118 264
    ∷ weigh 118 2996
    ∷ name 118 117
    ∷ right_to 397 319
    ∷ parent_to 119 319
    ∷ weigh 119 4988
    ∷ name 119 118
    ∷ left_to 377 294
    ∷ parent_to 120 294
    ∷ weigh 120 4163
    ∷ name 120 119
    ∷ right_to 420 350
    ∷ parent_to 121 350
    ∷ weigh 121 6534
    ∷ name 121 120
    ∷ right_to 372 290
    ∷ parent_to 122 290
    ∷ weigh 122 4001
    ∷ name 122 121
    ∷ right_to 379 298
    ∷ parent_to 123 298
    ∷ weigh 123 4342
    ∷ name 123 122
    ∷ left_to 384 302
    ∷ parent_to 124 302
    ∷ weigh 124 4488
    ∷ name 124 123
    ∷ right_to 413 339
    ∷ parent_to 125 339
    ∷ weigh 125 6039
    ∷ name 125 124
    ∷ left_to 395 314
    ∷ parent_to 126 314
    ∷ weigh 126 4827
    ∷ name 126 125
    ∷ right_to 428 360
    ∷ parent_to 127 360
    ∷ weigh 127 7112
    ∷ name 127 126
    ∷ left_to 441 380
    ∷ parent_to 128 380
    ∷ weigh 128 8654
    ∷ name 128 127
    ∷ left_to 487 462
    ∷ []

abbrev pub steps8 : List Step
steps8 =
    parent_to 129 462
    ∷ weigh 129 26712
    ∷ name 129 128
    ∷ parent_to 130 380
    ∷ weigh 130 8688
    ∷ name 130 129
    ∷ parent_right 131 448
    ∷ weigh 131 9677
    ∷ name 131 130
    ∷ right_to 446 390
    ∷ parent_to 132 390
    ∷ weigh 132 9368
    ∷ name 132 131
    ∷ parent_right 133 429
    ∷ weigh 133 7209
    ∷ name 133 132
    ∷ left_to 354 273
    ∷ parent_to 134 273
    ∷ weigh 134 3399
    ∷ name 134 133
    ∷ parent_left 135 384
    ∷ weigh 135 4473
    ∷ name 135 134
    ∷ right_to 389 309
    ∷ parent_to 136 309
    ∷ weigh 136 4677
    ∷ name 136 135
    ∷ parent_left 137 454
    ∷ weigh 137 11087
    ∷ name 137 136
    ∷ right_to 375 293
    ∷ parent_to 138 293
    ∷ weigh 138 4094
    ∷ name 138 137
    ∷ parent_to 139 273
    ∷ weigh 139 3404
    ∷ name 139 138
    ∷ right_to 377 295
    ∷ parent_to 140 295
    ∷ weigh 140 4176
    ∷ name 140 139
    ∷ left_to 422 352
    ∷ parent_to 141 352
    ∷ weigh 141 6733
    ∷ name 141 140
    ∷ left_to 365 284
    ∷ parent_to 142 284
    ∷ weigh 142 3702
    ∷ name 142 141
    ∷ left_to 455 407
    ∷ parent_to 143 407
    ∷ weigh 143 11420
    ∷ name 143 142
    ∷ right_to 395 315
    ∷ parent_to 144 315
    ∷ weigh 144 4867
    ∷ name 144 143
    ∷ left_to 412 336
    ∷ parent_to 145 336
    ∷ weigh 145 5968
    ∷ name 145 144
    ∷ left_to 356 277
    ∷ parent_to 146 277
    ∷ weigh 146 3475
    ∷ name 146 145
    ∷ parent_to 147 284
    ∷ weigh 147 3722
    ∷ name 147 146
    ∷ right_to 359 281
    ∷ parent_to 148 281
    ∷ weigh 148 3560
    ∷ name 148 147
    ∷ left_to 386 305
    ∷ parent_to 149 305
    ∷ weigh 149 4571
    ∷ name 149 148
    ∷ parent_left 150 329
    ∷ weigh 150 2720
    ∷ name 150 149
    ∷ parent_right 151 349
    ∷ weigh 151 3189
    ∷ name 151 150
    ∷ right_to 344 266
    ∷ parent_to 152 266
    ∷ weigh 152 3099
    ∷ name 152 151
    ∷ left_to 387 306
    ∷ parent_to 153 306
    ∷ weigh 153 4595
    ∷ name 153 152
    ∷ parent_left 154 374
    ∷ weigh 154 4044
    ∷ name 154 153
    ∷ parent_left 155 382
    ∷ weigh 155 4402
    ∷ name 155 154
    ∷ left_to 371 289
    ∷ parent_to 156 289
    ∷ weigh 156 3889
    ∷ name 156 155
    ∷ parent_right 157 397
    ∷ weigh 157 4989
    ∷ name 157 156
    ∷ right_to 346 268
    ∷ parent_to 158 268
    ∷ weigh 158 3186
    ∷ name 158 157
    ∷ parent_to 159 268
    ∷ weigh 159 3153
    ∷ name 159 158
    ∷ left_to 404 327
    ∷ parent_to 160 327
    ∷ weigh 160 5387
    ∷ name 160 159
    ∷ parent_left 161 437
    ∷ weigh 161 8020
    ∷ name 161 160
    ∷ left_to 352 271
    ∷ parent_to 162 271
    ∷ weigh 162 3322
    ∷ name 162 161
    ∷ right_to 366 285
    ∷ parent_to 163 285
    ∷ weigh 163 3775
    ∷ name 163 162
    ∷ right_to 332 262
    ∷ parent_to 164 262
    ∷ weigh 164 2886
    ∷ name 164 163
    ∷ parent_right 165 377
    ∷ weigh 165 4191
    ∷ name 165 164
    ∷ left_to 332 261
    ∷ parent_to 166 261
    ∷ weigh 166 2879
    ∷ name 166 165
    ∷ parent_right 167 344
    ∷ weigh 167 3110
    ∷ name 167 166
    ∷ left_to 325 259
    ∷ parent_to 168 259
    ∷ weigh 168 2576
    ∷ name 168 167
    ∷ right_to 364 283
    ∷ parent_to 169 283
    ∷ []
