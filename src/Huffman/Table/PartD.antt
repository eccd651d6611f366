-- ===== src/Huffman/Table/PartD.antt =====
-- Statements of `Huff_InitTree` of src/huffman.c, from line 1886 to line 2452.
use co_d4x_client_pub.Common.{List, [], ◌∷◌}
use co_d4x_client_pub.Huffman.Table.{
  Step, Step.left_to, Step.name, Step.parent_left, Step.parent_parent, Step.parent_right,
  Step.parent_to, Step.right_to, Step.weigh,
}

abbrev pub steps13 : List Step
steps13 =
    parent_to 347 418
    ∷ weigh 347 12714
    ∷ name 347 257
    ∷ parent_left 348 461
    ∷ weigh 348 12857
    ∷ name 348 257
    ∷ right_to 461 420
    ∷ parent_to 349 420
    ∷ weigh 349 12896
    ∷ name 349 257
    ∷ parent_to 350 420
    ∷ weigh 350 13041
    ∷ name 350 257
    ∷ parent_left 351 462
    ∷ weigh 351 13175
    ∷ name 351 257
    ∷ left_to 463 422
    ∷ parent_to 352 422
    ∷ weigh 352 13376
    ∷ name 352 257
    ∷ parent_to 353 422
    ∷ weigh 353 13543
    ∷ name 353 257
    ∷ parent_right 354 463
    ∷ weigh 354 13627
    ∷ name 354 257
    ∷ right_to 464 425
    ∷ parent_to 355 425
    ∷ weigh 355 13757
    ∷ name 355 257
    ∷ parent_to 356 425
    ∷ weigh 356 13896
    ∷ name 356 257
    ∷ right_to 465 426
    ∷ parent_to 357 426
    ∷ weigh 357 13953
    ∷ name 357 257
    ∷ parent_to 358 426
    ∷ weigh 358 14063
    ∷ name 358 257
    ∷ right_to 466 428
    ∷ parent_to 359 428
    ∷ weigh 359 14154
    ∷ name 359 257
    ∷ parent_to 360 428
    ∷ weigh 360 14276
    ∷ name 360 257
    ∷ parent_left 361 467
    ∷ weigh 361 14408
    ∷ name 361 257
    ∷ right_to 467 430
    ∷ parent_to 362 430
    ∷ weigh 362 14433
    ∷ name 362 257
    ∷ parent_to 363 430
    ∷ weigh 363 14484
    ∷ name 363 257
    ∷ right_to 468 431
    ∷ parent_to 364 431
    ∷ weigh 364 14699
    ∷ name 364 257
    ∷ parent_to 365 431
    ∷ weigh 365 14933
    ∷ name 365 257
    ∷ parent_left 366 469
    ∷ weigh 366 15142
    ∷ name 366 257
    ∷ parent_right 367 469
    ∷ weigh 367 15323
    ∷ name 367 257
    ∷ parent_left 368 470
    ∷ weigh 368 15407
    ∷ name 368 257
    ∷ right_to 470 435
    ∷ parent_to 369 435
    ∷ weigh 369 15482
    ∷ name 369 257
    ∷ parent_to 370 435
    ∷ weigh 370 15527
    ∷ name 370 257
    ∷ left_to 471 436
    ∷ parent_to 371 436
    ∷ weigh 371 15643
    ∷ name 371 257
    ∷ parent_to 372 436
    ∷ weigh 372 15915
    ∷ name 372 257
    ∷ right_to 471 437
    ∷ parent_to 373 437
    ∷ weigh 373 16022
    ∷ name 373 257
    ∷ parent_to 374 437
    ∷ weigh 374 16142
    ∷ name 374 257
    ∷ parent_right 375 472
    ∷ weigh 375 16380
    ∷ name 375 257
    ∷ left_to 473 439
    ∷ parent_to 376 439
    ∷ weigh 376 16530
    ∷ name 376 257
    ∷ parent_to 377 439
    ∷ weigh 377 16657
    ∷ name 377 257
    ∷ right_to 473 440
    ∷ parent_to 378 440
    ∷ weigh 378 16927
    ∷ name 378 257
    ∷ parent_to 379 440
    ∷ weigh 379 17290
    ∷ name 379 257
    ∷ left_to 474 441
    ∷ parent_to 380 441
    ∷ weigh 380 17342
    ∷ name 380 257
    ∷ parent_to 381 441
    ∷ weigh 381 17486
    ∷ name 381 257
    ∷ parent_right 382 474
    ∷ weigh 382 17689
    ∷ name 382 257
    ∷ left_to 475 443
    ∷ parent_to 383 443
    ∷ weigh 383 17775
    ∷ name 383 257
    ∷ parent_to 384 443
    ∷ weigh 384 17980
    ∷ name 384 257
    ∷ right_to 475 444
    ∷ parent_to 385 444
    ∷ weigh 385 18156
    ∷ name 385 257
    ∷ parent_to 386 444
    ∷ weigh 386 18315
    ∷ name 386 257
    ∷ left_to 476 445
    ∷ parent_to 387 445
    ∷ weigh 387 18464
    ∷ name 387 257
    ∷ parent_to 388 445
    ∷ weigh 388 18653
    ∷ name 388 257
    ∷ right_to 476 446
    ∷ parent_to 389 446
    ∷ weigh 389 18709
    ∷ []

abbrev pub steps14 : List Step
steps14 =
    name 389 257
    ∷ parent_to 390 446
    ∷ weigh 390 18734
    ∷ name 390 257
    ∷ left_to 477 447
    ∷ parent_to 391 447
    ∷ weigh 391 18772
    ∷ name 391 257
    ∷ parent_to 392 447
    ∷ weigh 392 18905
    ∷ name 392 257
    ∷ right_to 477 448
    ∷ parent_to 393 448
    ∷ weigh 393 19277
    ∷ name 393 257
    ∷ parent_to 394 448
    ∷ weigh 394 19333
    ∷ name 394 257
    ∷ right_to 478 449
    ∷ parent_to 395 449
    ∷ weigh 395 19464
    ∷ name 395 257
    ∷ parent_to 396 449
    ∷ weigh 396 19769
    ∷ name 396 257
    ∷ left_to 479 450
    ∷ parent_to 397 450
    ∷ weigh 397 19945
    ∷ name 397 257
    ∷ parent_to 398 450
    ∷ weigh 398 20007
    ∷ name 398 257
    ∷ right_to 480 451
    ∷ parent_to 399 451
    ∷ weigh 399 20605
    ∷ name 399 257
    ∷ parent_to 400 451
    ∷ weigh 400 20816
    ∷ name 400 257
    ∷ left_to 481 452
    ∷ parent_to 401 452
    ∷ weigh 401 21000
    ∷ name 401 257
    ∷ parent_to 402 452
    ∷ weigh 402 21237
    ∷ name 402 257
    ∷ right_to 481 453
    ∷ parent_to 403 453
    ∷ weigh 403 21443
    ∷ name 403 257
    ∷ parent_to 404 453
    ∷ weigh 404 21870
    ∷ name 404 257
    ∷ left_to 482 454
    ∷ parent_to 405 454
    ∷ weigh 405 22213
    ∷ name 405 257
    ∷ parent_to 406 454
    ∷ weigh 406 22442
    ∷ name 406 257
    ∷ right_to 482 455
    ∷ parent_to 407 455
    ∷ weigh 407 22797
    ∷ name 407 257
    ∷ parent_to 408 455
    ∷ weigh 408 23147
    ∷ name 408 257
    ∷ left_to 483 456
    ∷ parent_to 409 456
    ∷ weigh 409 23393
    ∷ name 409 257
    ∷ parent_to 410 456
    ∷ weigh 410 23577
    ∷ name 410 257
    ∷ right_to 483 457
    ∷ parent_to 411 457
    ∷ weigh 411 23709
    ∷ name 411 257
    ∷ parent_to 412 457
    ∷ weigh 412 23886
    ∷ name 412 257
    ∷ right_to 484 458
    ∷ parent_to 413 458
    ∷ weigh 413 24125
    ∷ name 413 257
    ∷ parent_to 414 458
    ∷ weigh 414 24348
    ∷ name 414 257
    ∷ right_to 485 459
    ∷ parent_to 415 459
    ∷ weigh 415 24601
    ∷ name 415 257
    ∷ parent_to 416 459
    ∷ weigh 416 24794
    ∷ name 416 257
    ∷ left_to 486 460
    ∷ parent_to 417 460
    ∷ weigh 417 25111
    ∷ name 417 257
    ∷ parent_to 418 460
    ∷ weigh 418 25386
    ∷ name 418 257
    ∷ right_to 486 461
    ∷ parent_to 419 461
    ∷ weigh 419 25671
    ∷ name 419 257
    ∷ parent_to 420 461
    ∷ weigh 420 25937
    ∷ name 420 257
    ∷ parent_left 421 487
    ∷ weigh 421 26359
    ∷ name 421 257
    ∷ right_to 487 463
    ∷ parent_to 422 463
    ∷ weigh 422 26919
    ∷ name 422 257
    ∷ parent_to 423 463
    ∷ weigh 423 27256
    ∷ name 423 257
    ∷ left_to 488 464
    ∷ parent_to 424 464
    ∷ weigh 424 27323
    ∷ name 424 257
    ∷ parent_to 425 464
    ∷ weigh 425 27653
    ∷ name 425 257
    ∷ parent_right 426 488
    ∷ weigh 426 28016
    ∷ name 426 257
    ∷ left_to 489 466
    ∷ parent_to 427 466
    ∷ weigh 427 28225
    ∷ name 427 257
    ∷ parent_to 428 466
    ∷ weigh 428 28430
    ∷ name 428 257
    ∷ right_to 489 467
    ∷ parent_to 429 467
    ∷ weigh 429 28727
    ∷ name 429 257
    ∷ parent_to 430 467
    ∷ weigh 430 28917
    ∷ name 430 257
    ∷ parent_left 431 490
    ∷ weigh 431 29632
    ∷ []

abbrev pub steps15 : List Step
steps15 =
    name 431 257
    ∷ right_to 490 469
    ∷ parent_to 432 469
    ∷ weigh 432 30398
    ∷ name 432 257
    ∷ parent_to 433 469
    ∷ weigh 433 30704
    ∷ name 433 257
    ∷ left_to 491 470
    ∷ parent_to 434 470
    ∷ weigh 434 30846
    ∷ name 434 257
    ∷ parent_to 435 470
    ∷ weigh 435 31009
    ∷ name 435 257
    ∷ right_to 491 471
    ∷ parent_to 436 471
    ∷ weigh 436 31558
    ∷ name 436 257
    ∷ parent_to 437 471
    ∷ weigh 437 32164
    ∷ name 437 257
    ∷ parent_left 438 492
    ∷ weigh 438 32820
    ∷ name 438 257
    ∷ right_to 492 473
    ∷ parent_to 439 473
    ∷ weigh 439 33187
    ∷ name 439 257
    ∷ parent_to 440 473
    ∷ weigh 440 34217
    ∷ name 440 257
    ∷ parent_to 441 474
    ∷ weigh 441 34828
    ∷ name 441 257
    ∷ parent_to 442 474
    ∷ weigh 442 35401
    ∷ name 442 257
    ∷ left_to 494 475
    ∷ parent_to 443 475
    ∷ weigh 443 35755
    ∷ name 443 257
    ∷ parent_to 444 475
    ∷ weigh 444 36471
    ∷ name 444 257
    ∷ right_to 494 476
    ∷ parent_to 445 476
    ∷ weigh 445 37117
    ∷ name 445 257
    ∷ parent_to 446 476
    ∷ weigh 446 37443
    ∷ name 446 257
    ∷ left_to 495 477
    ∷ parent_to 447 477
    ∷ weigh 447 37677
    ∷ name 447 257
    ∷ parent_to 448 477
    ∷ weigh 448 38610
    ∷ name 448 257
    ∷ parent_right 449 495
    ∷ weigh 449 39233
    ∷ name 449 257
    ∷ parent_left 450 496
    ∷ weigh 450 39952
    ∷ name 450 257
    ∷ parent_right 451 496
    ∷ weigh 451 41421
    ∷ name 451 257
    ∷ left_to 497 481
    ∷ parent_to 452 481
    ∷ weigh 452 42237
    ∷ name 452 257
    ∷ parent_to 453 481
    ∷ weigh 453 43313
    ∷ name 453 257
    ∷ right_to 497 482
    ∷ parent_to 454 482
    ∷ weigh 454 44655
    ∷ name 454 257
    ∷ parent_to 455 482
    ∷ weigh 455 45944
    ∷ name 455 257
    ∷ left_to 498 483
    ∷ parent_to 456 483
    ∷ weigh 456 46970
    ∷ name 456 257
    ∷ parent_to 457 483
    ∷ weigh 457 47595
    ∷ name 457 257
    ∷ parent_right 458 498
    ∷ weigh 458 48473
    ∷ name 458 257
    ∷ parent_left 459 499
    ∷ weigh 459 49395
    ∷ name 459 257
    ∷ right_to 499 486
    ∷ parent_to 460 486
    ∷ weigh 460 50497
    ∷ name 460 257
    ∷ parent_to 461 486
    ∷ weigh 461 51608
    ∷ name 461 257
    ∷ left_to 500 487
    ∷ parent_to 462 487
    ∷ weigh 462 53071
    ∷ name 462 257
    ∷ parent_to 463 487
    ∷ weigh 463 54175
    ∷ name 463 257
    ∷ right_to 500 488
    ∷ parent_to 464 488
    ∷ weigh 464 54976
    ∷ name 464 257
    ∷ parent_to 465 488
    ∷ weigh 465 55708
    ∷ name 465 257
    ∷ left_to 501 489
    ∷ parent_to 466 489
    ∷ weigh 466 56655
    ∷ name 466 257
    ∷ parent_to 467 489
    ∷ weigh 467 57644
    ∷ name 467 257
    ∷ right_to 501 490
    ∷ parent_to 468 490
    ∷ weigh 468 58600
    ∷ name 468 257
    ∷ parent_to 469 490
    ∷ weigh 469 61102
    ∷ name 469 257
    ∷ left_to 502 491
    ∷ parent_to 470 491
    ∷ weigh 470 61855
    ∷ name 470 257
    ∷ parent_to 471 491
    ∷ weigh 471 63722
    ∷ name 471 257
    ∷ right_to 502 492
    ∷ parent_to 472 492
    ∷ weigh 472 65467
    ∷ name 472 257
    ∷ parent_to 473 492
    ∷ weigh 473 67404
    ∷ name 473 257
    ∷ parent_left 474 503
    ∷ []

abbrev pub steps16 : List Step
steps16 =
    weigh 474 70229
    ∷ name 474 257
    ∷ right_to 503 494
    ∷ parent_to 475 494
    ∷ weigh 475 72226
    ∷ name 475 257
    ∷ parent_to 476 494
    ∷ weigh 476 74560
    ∷ name 476 257
    ∷ left_to 504 495
    ∷ parent_to 477 495
    ∷ weigh 477 76287
    ∷ name 477 257
    ∷ parent_to 478 495
    ∷ weigh 478 78239
    ∷ name 478 257
    ∷ right_to 504 496
    ∷ parent_to 479 496
    ∷ weigh 479 80218
    ∷ name 479 257
    ∷ parent_to 480 496
    ∷ weigh 480 81881
    ∷ name 480 257
    ∷ left_to 505 497
    ∷ parent_to 481 497
    ∷ weigh 481 85550
    ∷ name 481 257
    ∷ parent_to 482 497
    ∷ weigh 482 90599
    ∷ name 482 257
    ∷ right_to 505 498
    ∷ parent_to 483 498
    ∷ weigh 483 94565
    ∷ name 483 257
    ∷ parent_to 484 498
    ∷ weigh 484 96532
    ∷ name 484 257
    ∷ left_to 506 499
    ∷ parent_to 485 499
    ∷ weigh 485 98025
    ∷ name 485 257
    ∷ parent_to 486 499
    ∷ weigh 486 102105
    ∷ name 486 257
    ∷ right_to 506 500
    ∷ parent_to 487 500
    ∷ weigh 487 107246
    ∷ name 487 257
    ∷ parent_to 488 500
    ∷ weigh 488 110684
    ∷ name 488 257
    ∷ parent_to 489 501
    ∷ weigh 489 114299
    ∷ name 489 257
    ∷ parent_to 490 501
    ∷ weigh 490 119702
    ∷ name 490 257
    ∷ parent_to 491 502
    ∷ weigh 491 125577
    ∷ name 491 257
    ∷ parent_to 492 502
    ∷ weigh 492 132871
    ∷ name 492 257
    ∷ right_to 493 474
    ∷ right_to 508 503
    ∷ parent_to 493 503
    ∷ weigh 493 139006
    ∷ name 493 257
    ∷ parent_to 494 503
    ∷ weigh 494 146786
    ∷ name 494 257
    ∷ parent_to 495 504
    ∷ weigh 495 154526
    ∷ name 495 257
    ∷ parent_to 496 504
    ∷ weigh 496 162099
    ∷ name 496 257
    ∷ parent_to 497 505
    ∷ weigh 497 176149
    ∷ name 497 257
    ∷ parent_to 498 505
    ∷ weigh 498 191097
    ∷ name 498 257
    ∷ left_to 510 506
    ∷ parent_to 499 506
    ∷ weigh 499 200130
    ∷ name 499 257
    ∷ parent_to 500 506
    ∷ weigh 500 217930
    ∷ name 500 257
    ∷ right_to 510 507
    ∷ parent_to 501 507
    ∷ weigh 501 234001
    ∷ name 501 257
    ∷ parent_to 502 507
    ∷ weigh 502 258448
    ∷ name 502 257
    ∷ parent_left 503 511
    ∷ weigh 503 285792
    ∷ name 503 257
    ∷ right_to 511 509
    ∷ parent_to 504 509
    ∷ weigh 504 316625
    ∷ name 504 257
    ∷ parent_to 505 509
    ∷ weigh 505 367246
    ∷ name 505 257
    ∷ left_to 512 510
    ∷ parent_to 506 510
    ∷ weigh 506 418060
    ∷ name 506 257
    ∷ left_to 507 501
    ∷ right_to 507 502
    ∷ parent_to 507 510
    ∷ weigh 507 492449
    ∷ name 507 257
    ∷ parent_to 508 511
    ∷ weigh 508 559846
    ∷ name 508 257
    ∷ left_to 509 504
    ∷ right_to 509 505
    ∷ parent_to 509 511
    ∷ weigh 509 683871
    ∷ name 509 257
    ∷ parent_parent 510 511
    ∷ weigh 510 910509
    ∷ name 510 257
    ∷ weigh 511 1243717
    ∷ name 511 257
    ∷ right_to 512 511
    ∷ weigh 512 2154226
    ∷ name 512 257
    ∷ []
